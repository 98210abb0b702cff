-- ===== src/Lanes/Custody.antt =====
-- The connections that `send` holds, and the call that it leaves behind.
use gopls_mcp_manager.Prelude.{
  ℕ, zero, suc, ◌+◌, ◌≤◌, String, Bool, true, false, ◌≡◌, refl, Option, none, some, List, ◌∷◌,
  length, ◌⊎◌, arith, subst, sym, nat_eq, option_eq,
}
use gopls_mcp_manager.Requests.State.{RequestId, Token, Conn, Request, Fault, Router}
use gopls_mcp_manager.Lanes.Send.{
  Ending, unowned, dropped, given_up, exhausted, answered_elsewhere, delivered, Point, placing,
  trying, shaking, connected, locked, begun, retrying, taken, oversized, giving_up, failing,
  finished, World, accepted, too_large, broken, Written, Sender, dial_bounded, dial, try, placed_at,
  shaken, begun_at, wrote, retried, advance_at, advance, new_sender,
}
use gopls_mcp_manager.Lanes.Refinement.{Joint, begin, moves, others}

-- Nothing that was dialled is loose, and two writes are not exceeded by the attempts left.
abbrev IsIdle : ℕ → Sender → Type 0
IsIdle n s = (length s.writes + n ≤ 2) × (s.loose ≡ none)

-- The connection in use is the lane's, or the only loose one.
abbrev IsUsing : ℕ → ℕ → Sender → Type 0
IsUsing n c s =
    (length s.writes + n ≤ 2) × ((s.loose ≡ none) × (s.conn ≡ some c) ⊎ s.loose ≡ some c)

abbrev IsTaken : ℕ → Sender → Type 0
IsTaken c s = IsIdle 0 s × (s.conn ≡ some c) × ((ws : List ℕ) × s.writes ≡ c ∷ ws)

abbrev Ended : Ending → Sender → Type 0
Ended (delivered c) s = IsTaken c s
Ended ending s = IsIdle 0 s

-- What holds of the sender at a point.
abbrev At : Point → Sender → Type 0
At placing s = IsIdle 2 s
At (trying n fault) s = IsIdle n s
At (shaking n c) s = IsUsing (suc n) c s
At (connected n c) s = IsUsing (suc n) c s
At (locked n c) s = IsUsing (suc n) c s
At (begun n c) s = IsUsing (suc n) c s
At (retrying n c fault) s = IsUsing n c s
At (taken c) s = IsTaken c s
At (oversized c) s = IsUsing 0 c s
At (giving_up c fault) s = IsUsing 0 c s
At (failing fault) s = IsIdle 0 s
At (finished ending) s = Ended ending s

dial-At :
    (w : World) (s : Sender) (n : ℕ) (conn : Conn)
    → s.conn ≡ conn
    → length s.writes + suc n ≤ 2
    → At (dial w s n conn).0 (record s { point = (dial w s n conn).0; loose = (dial w s n conn).1 })
unfolding dial dial_bounded
dial-At w s n none h b = ground arith
dial-At w s n (some c) h b = ground arith

try-At : (w : World) (s : Sender) (n : ℕ) → IsIdle (suc n) s → At (try w s n).point (try w s n)
unfolding try
try-At w s n h = ground (arith, dial-At w s n s.conn refl h.0)

placed_at-At :
    (s : Sender) (p : Router × Token × Bool)
    → IsIdle 2 s
    → At (placed_at s p).1.point (placed_at s p).1
unfolding placed_at
placed_at-At s (r, state, true) h = h
placed_at-At s (r, state, false) h = (omega (arith, h.0), h.1)

shaken-At :
    (s : Sender) (n c : ℕ) (p : Router × Option Fault)
    → IsUsing (suc n) c s
    → At (shaken s n c p).1.point (shaken s n c p).1
unfolding shaken
shaken-At s n c (r, none) h = h
shaken-At s n c (r, some fault) h = (omega (arith, h.0), refl)

begun_at-At :
    (s : Sender) (n c : ℕ) (p : Router × Option Fault)
    → IsUsing (suc n) c s
    → At (begun_at s n c p).1.point (begun_at s n c p).1
unfolding begun_at
begun_at-At s n c (r, none) h = h
begun_at-At s n c (r, some fault) h = (omega (arith, h.0), h.1)

wrote-At :
    (s : Sender) (n c : ℕ) (written : Written)
    → IsUsing (suc n) c s
    → At (wrote s n c written).point (wrote s n c written)
unfolding wrote
wrote-At s n c accepted h = ((omega (arith, h.0), refl), refl, (s.writes, refl))
wrote-At s n c too_large h = (omega (arith, h.0), h.1)
wrote-At s n c (broken fault) h = (omega (arith, h.0), h.1)

retried-At :
    (s : Sender) (n c : ℕ) (fault : Fault) (p : Router × Bool)
    → IsUsing n c s
    → At (retried s n fault p).1.point (retried s n fault p).1
unfolding retried
retried-At s n c fault (r, true) h = (h.0, refl)
retried-At s n c fault (r, false) h = (omega (arith, h.0), refl)

gate-At :
    (w : World) (r : Router) (s : Sender) (n c : ℕ) (o : Option Fault)
    → w.gate ≡ o
    → IsUsing (suc n) c s
    → At (advance_at w r s (connected n c)).1.point (advance_at w r s (connected n c)).1
unfolding advance_at
gate-At w r s n c none e h = rw e h
gate-At w r s n c (some fault) e h = rw e (omega (arith, h.0), h.1)

advance_at-At :
    (w : World) (r : Router) (s : Sender) (p : Point)
    → s.point ≡ p
    → At p s
    → At (advance_at w r s p).1.point (advance_at w r s p).1
unfolding advance_at
advance_at-At w r s placing e h = placed_at-At s _ h
advance_at-At w r s (trying zero fault) e h = h
advance_at-At w r s (trying (suc n) fault) e h = try-At w s n h
advance_at-At w r s (shaking n c) e h = shaken-At s n c _ h
advance_at-At w r s (connected n c) e h = gate-At w r s n c w.gate refl h
advance_at-At w r s (locked n c) e h = begun_at-At s n c _ h
advance_at-At w r s (begun n c) e h = wrote-At s n c w.written h
advance_at-At w r s (retrying n c fault) e h = retried-At s n c fault _ h
advance_at-At w r s (taken c) e h = h
advance_at-At w r s (oversized c) e h = h
advance_at-At w r s (giving_up c fault) e h = (h.0, refl)
advance_at-At w r s (failing fault) e h = h
advance_at-At w r s (finished ending) e h = subst (λ p. At p s) (sym e) h

Ended-loose :
    (ending : Ending) (s : Sender) → Ended ending s → (length s.writes ≤ 2) × (s.loose ≡ none)
Ended-loose (delivered c) s h = (omega (arith, h.0.0), h.0.1)
Ended-loose unowned s h = (omega (arith, h.0), h.1)
Ended-loose dropped s h = (omega (arith, h.0), h.1)
Ended-loose given_up s h = (omega (arith, h.0), h.1)
Ended-loose exhausted s h = (omega (arith, h.0), h.1)
Ended-loose answered_elsewhere s h = (omega (arith, h.0), h.1)

-- What `send` leaves when it ends: at most two writes, no loose connection, and a delivered message
-- is the last write, on the connection that the lane keeps.
abbrev pub IsSettled : Ending → Sender → Type 0
IsSettled ending s =
    (length s.writes ≤ 2)
    × (s.loose ≡ none)
    × ((c : ℕ) → ending ≡ delivered c → (s.conn ≡ some c) × ((ws : List ℕ) × s.writes ≡ c ∷ ws))

taken_parts :
    (s : Sender) (c : ℕ) → IsTaken c s → (s.conn ≡ some c) × ((ws : List ℕ) × s.writes ≡ c ∷ ws)
taken_parts s c h = (h.1, h.2)

module _ (with_roots_capability : String → String) (cancelled_id : String → Option RequestId) where
  Joint-At :
      {r : Router} {s : Sender} {n : ℕ} {t : Router} {u : Sender}
      → At s.point s
      → Joint with_roots_capability cancelled_id r s n t u
      → At u.point u
  unfolding advance
  Joint-At h begin = h
  Joint-At h (moves {t = t} {u = u} w run) = advance_at-At w t u u.point refl (Joint-At h run)
  Joint-At h (others e run p) = Joint-At h run

  -- A `send` that has finished, however the other goroutines' steps came between its moves, has
  -- written at most twice, left no connection that it dialled both open and unread, and, where it
  -- delivered its message, written it last on the connection that its lane then holds.
  pub send-IsSettled :
      (r : Router) (req : Request) (expected : Token) (cancel : ℕ) (worktree : String) (conn : Conn)
      (n : ℕ) (t : Router) (u : Sender) (ending : Ending)
      → Joint with_roots_capability cancelled_id r
          (new_sender req expected cancel worktree conn)
          n
          t
          u
      → u.point ≡ finished ending
      → IsSettled ending u
  send-IsSettled r req expected cancel worktree conn n t u ending run done =
      let ended = subst (λ p. At p u) done (Joint-At (omega arith, refl) run) in
      (
        (Ended-loose ending u ended).0,
        (Ended-loose ending u ended).1,
        λ c e. taken_parts u c (subst (λ x. Ended x u) e ended),
      )
