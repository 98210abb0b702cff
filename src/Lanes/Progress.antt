-- ===== src/Lanes/Progress.antt =====
-- `send` comes to an end, and what it holds when it does.
use gopls_mcp_manager.Prelude.{
  ℕ, zero, suc, ◌+◌, ◌*◌, ◌≤◌, String, Bool, true, false, ◌≡◌, refl, Option, none, some, ◌⊎◌, inl,
  inr, ap, arith,
}
use gopls_mcp_manager.Requests.State.{RequestId, Token, Conn, Request, Fault, Router}
use gopls_mcp_manager.Lanes.Send.{
  Ending, Point, placing, trying, shaking, connected, locked, begun, retrying, taken, oversized,
  giving_up, failing, finished, World, accepted, too_large, broken, Written, Sender, dial_bounded,
  dial, try, placed_at, shaken, begun_at, wrote, retried, advance_at, advance, new_sender,
}
use gopls_mcp_manager.Lanes.Refinement.{Joint, begin, moves, others}

-- The most moves that `send` has left.
unfoldable moves_left : Point → ℕ
moves_left placing = 15
moves_left (trying n fault) = 6 * n + 2
moves_left (shaking n c) = 6 * n + 7
moves_left (connected n c) = 6 * n + 6
moves_left (locked n c) = 6 * n + 5
moves_left (begun n c) = 6 * n + 4
moves_left (retrying n c fault) = 6 * n + 3
moves_left (taken c) = 1
moves_left (oversized c) = 2
moves_left (giving_up c fault) = 1
moves_left (failing fault) = 1
moves_left (finished ending) = 0

dial-moves_left :
    (w : World) (s : Sender) (n : ℕ) (conn : Conn) → moves_left (dial w s n conn).0 + 1 ≤ 6 * n + 8
unfolding dial moves_left dial_bounded
dial-moves_left w s n none = ground arith
dial-moves_left w s n (some c) = ground arith

try-moves_left : (w : World) (s : Sender) (n : ℕ) → moves_left (try w s n).point + 1 ≤ 6 * n + 8
unfolding try moves_left
try-moves_left w s n = ground (arith, dial-moves_left w s n s.conn)

placed_at-moves_left :
    (s : Sender) (p : Router × Token × Bool) → moves_left (placed_at s p).1.point ≤ 14
unfolding placed_at moves_left
placed_at-moves_left s (r, state, true) = omega arith
placed_at-moves_left s (r, state, false) = omega arith

shaken-moves_left :
    (s : Sender) (n c : ℕ) (p : Router × Option Fault)
    → moves_left (shaken s n c p).1.point ≤ 6 * n + 6
unfolding shaken moves_left
shaken-moves_left s n c (r, none) = omega arith
shaken-moves_left s n c (r, some fault) = omega arith

begun_at-moves_left :
    (s : Sender) (n c : ℕ) (p : Router × Option Fault)
    → moves_left (begun_at s n c p).1.point ≤ 6 * n + 4
unfolding begun_at moves_left
begun_at-moves_left s n c (r, none) = omega arith
begun_at-moves_left s n c (r, some fault) = omega arith

wrote-moves_left :
    (s : Sender) (n c : ℕ) (written : Written) → moves_left (wrote s n c written).point ≤ 6 * n + 3
unfolding wrote moves_left
wrote-moves_left s n c accepted = omega arith
wrote-moves_left s n c too_large = omega arith
wrote-moves_left s n c (broken fault) = omega arith

retried-moves_left :
    (s : Sender) (n : ℕ) (fault : Fault) (p : Router × Bool)
    → moves_left (retried s n fault p).1.point ≤ 6 * n + 2
unfolding retried moves_left
retried-moves_left s n fault (r, true) = omega arith
retried-moves_left s n fault (r, false) = omega arith

gate-moves_left :
    (w : World) (r : Router) (s : Sender) (n c : ℕ)
    → moves_left (advance_at w r s (connected n c)).1.point ≤ 6 * n + 5
unfolding advance_at moves_left
gate-moves_left w r s n c = ground arith

advance_at-moves_left :
    (w : World) (r : Router) (s : Sender) (p : Point)
    → (moves_left p ≡ 0) × (advance_at w r s p ≡ (r, s))
      ⊎ moves_left (advance_at w r s p).1.point + 1 ≤ moves_left p
unfolding advance_at moves_left
advance_at-moves_left w r s placing = inr (omega (arith, placed_at-moves_left s _))
advance_at-moves_left w r s (trying zero fault) = inr (omega arith)
advance_at-moves_left w r s (trying (suc n) fault) = inr (omega (arith, try-moves_left w s n))
advance_at-moves_left w r s (shaking n c) = inr (omega (arith, shaken-moves_left s n c _))
advance_at-moves_left w r s (connected n c) = inr (omega (arith, gate-moves_left w r s n c))
advance_at-moves_left w r s (locked n c) = inr (omega (arith, begun_at-moves_left s n c _))
advance_at-moves_left w r s (begun n c) = inr (omega (arith, wrote-moves_left s n c w.written))
advance_at-moves_left w r s (retrying n c fault) =
    inr (omega (arith, retried-moves_left s n fault _))
advance_at-moves_left w r s (taken c) = inr (omega arith)
advance_at-moves_left w r s (oversized c) = inr (omega arith)
advance_at-moves_left w r s (giving_up c fault) = inr (omega arith)
advance_at-moves_left w r s (failing fault) = inr (omega arith)
advance_at-moves_left w r s (finished ending) = inl (refl, refl)

is_finished : (p : Point) → moves_left p ≡ 0 → (ending : Ending) × p ≡ finished ending
unfolding moves_left
is_finished placing h = cc
is_finished (trying n fault) h = absurd (omega (arith, h))
is_finished (shaking n c) h = absurd (omega (arith, h))
is_finished (connected n c) h = absurd (omega (arith, h))
is_finished (locked n c) h = absurd (omega (arith, h))
is_finished (begun n c) h = absurd (omega (arith, h))
is_finished (retrying n c fault) h = absurd (omega (arith, h))
is_finished (taken c) h = absurd (omega (arith, h))
is_finished (oversized c) h = absurd (omega (arith, h))
is_finished (giving_up c fault) h = absurd (omega (arith, h))
is_finished (failing fault) h = absurd (omega (arith, h))
is_finished (finished ending) h = (ending, refl)

after_move :
    (n before after : ℕ)
    → (before ≡ 0) ⊎ n + before ≤ 15
    → (before ≡ 0) × (after ≡ before) ⊎ after + 1 ≤ before
    → (after ≡ 0) ⊎ suc n + after ≤ 15
after_move n before after (inl done) (inl (zero_left, same)) = inl (omega arith)
after_move n before after (inl done) (inr fewer) = inl (omega arith)
after_move n before after (inr within) (inl (zero_left, same)) = inl (omega arith)
after_move n before after (inr within) (inr fewer) = inr (omega arith)

none_left : (n left : ℕ) → 15 ≤ n → (left ≡ 0) ⊎ n + left ≤ 15 → left ≡ 0
none_left n left enough (inl done) = done
none_left n left enough (inr within) = omega arith

kept :
    {r : Router} {s : Sender} {p : Router × Sender}
    → (moves_left s.point ≡ 0) × (p ≡ (r, s)) ⊎ moves_left p.1.point + 1 ≤ moves_left s.point
    → (moves_left s.point ≡ 0) × (moves_left p.1.point ≡ moves_left s.point)
      ⊎ moves_left p.1.point + 1 ≤ moves_left s.point
kept (inl (done, same)) = inl (done, ap (λ q. moves_left q.1.point) same)
kept (inr fewer) = inr fewer

module _ (with_roots_capability : String → String) (cancelled_id : String → Option RequestId) where
  Joint-moves_left :
      {r : Router} {s : Sender} {n : ℕ} {t : Router} {u : Sender}
      → moves_left s.point ≤ 15
      → Joint with_roots_capability cancelled_id r s n t u
      → (moves_left u.point ≡ 0) ⊎ n + moves_left u.point ≤ 15
  unfolding advance
  Joint-moves_left h begin = inr (omega (arith, h))
  Joint-moves_left h (moves {n = n} {t = t} {u = u} w run) =
      after_move n _ _ (Joint-moves_left h run) (kept (advance_at-moves_left w t u u.point))
  Joint-moves_left h (others e run p) = Joint-moves_left h run

  -- However the steps of the other goroutines come between its moves, and whatever the network
  -- answers, a `send` that has made fifteen moves has finished.
  pub send-IsFinished :
      (r : Router) (req : Request) (expected : Token) (cancel : ℕ) (worktree : String) (conn : Conn)
      (n : ℕ) (t : Router) (u : Sender)
      → 15 ≤ n
      → Joint with_roots_capability cancelled_id r
          (new_sender req expected cancel worktree conn)
          n
          t
          u
      → (ending : Ending) × u.point ≡ finished ending
  unfolding moves_left
  send-IsFinished r req expected cancel worktree conn n t u enough run =
      is_finished u.point
        (none_left n (moves_left u.point) enough (Joint-moves_left (omega arith) run))
