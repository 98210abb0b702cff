-- ===== src/Lanes/Refinement.antt =====
-- The moves of `send` against the steps of the tracker.
use gopls_mcp_manager.Prelude.{
  ℕ, suc, zero, String, Bool, true, false, ◌≡◌, refl, Option, none, some, List, [], ◌∷◌, ◌++◌,
}
use gopls_mcp_manager.Requests.State.{
  RequestId, Token, Request, Fault, volunteered, Router, server_error,
}
use gopls_mcp_manager.Requests.Output.{forward}
use gopls_mcp_manager.Requests.Session.{
  Event, places, begins, starts, retries, abandons, rejects_size, volunteers, step, Run, start,
  next, IsProper,
}
use gopls_mcp_manager.Lanes.Send.{
  Point, placing, trying, shaking, connected, locked, begun, retrying, taken, oversized, giving_up,
  failing, finished, Incoming, initialized, asks, says, read_fails, World, Sender, placed_at,
  shaken, begun_at, retried, failure_code, read_handshake, after_reads, exchange, handshake,
  advance_at, advance,
}

-- What follows a call of the tracker leaves the router as the call did.
placed_at-router : (s : Sender) (p : Router × Token × Bool) → (placed_at s p).0 ≡ p.0
unfolding placed_at
placed_at-router s (r, state, true) = refl
placed_at-router s (r, state, false) = refl

shaken-router : (s : Sender) (n c : ℕ) (p : Router × Option Fault) → (shaken s n c p).0 ≡ p.0
unfolding shaken
shaken-router s n c (r, none) = refl
shaken-router s n c (r, some fault) = refl

begun_at-router : (s : Sender) (n c : ℕ) (p : Router × Option Fault) → (begun_at s n c p).0 ≡ p.0
unfolding begun_at
begun_at-router s n c (r, none) = refl
begun_at-router s n c (r, some fault) = refl

retried-router :
    (s : Sender) (n : ℕ) (fault : Fault) (p : Router × Bool) → (retried s n fault p).0 ≡ p.0
unfolding retried
retried-router s n fault (r, true) = refl
retried-router s n fault (r, false) = refl

after_reads-router : (w : World) (p : Router × Option Fault) → (after_reads w p).0 ≡ p.0
unfolding after_reads
after_reads-router w (r, none) = refl
after_reads-router w (r, some fault) = refl

module _ (with_roots_capability : String → String) (cancelled_id : String → Option RequestId) where
  -- A router that some steps of the tracker lead to.
  abbrev pub Reaches : Router → Router → Type 0
  Reaches r s = (es : List Event) × Run with_roots_capability cancelled_id r es s

  Reaches-self : (r : Router) → Reaches r r
  Reaches-self r = ([], start)

  Reaches-one :
      (r : Router) (e : Event)
      → IsProper r e
      → Reaches r (step with_roots_capability cancelled_id r e)
  Reaches-one r e p = (e ∷ [], next e start p)

  pub Run-trans :
      {r s t : Router} {es fs : List Event}
      → Run with_roots_capability cancelled_id r es s
      → Run with_roots_capability cancelled_id s fs t
      → Run with_roots_capability cancelled_id r (fs ++ es) t
  Run-trans run start = run
  Run-trans run (next e rest p) = next e (Run-trans run rest) p

  read_handshake-Reaches :
      (reads : List Incoming) (r : Router) → Reaches r (read_handshake r reads).0
  unfolding read_handshake step forward
  read_handshake-Reaches [] r = Reaches-self r
  read_handshake-Reaches (initialized fault ∷ reads) r = Reaches-self r
  read_handshake-Reaches (asks none ∷ reads) r = read_handshake-Reaches reads r
  read_handshake-Reaches (asks (some fault) ∷ reads) r = Reaches-self r
  read_handshake-Reaches (says payload ∷ reads) r =
      let (es, run) = read_handshake-Reaches reads (forward r (volunteered payload)) in
      (es ++ volunteers payload ∷ [], Run-trans (next (volunteers payload) start tt) run)
  read_handshake-Reaches (read_fails fault ∷ reads) r = Reaches-self r

  exchange-Reaches : (w : World) (r : Router) (o : Option Fault) → Reaches r (exchange w r o).0
  unfolding exchange
  exchange-Reaches w r none = rw after_reads-router (read_handshake-Reaches w.reads r)
  exchange-Reaches w r (some fault) = Reaches-self r

  handshake-Reaches : (w : World) (r : Router) (o : Option Request) → Reaches r (handshake w r o).0
  unfolding handshake
  handshake-Reaches w r none = Reaches-self r
  handshake-Reaches w r (some initialize) = exchange-Reaches w r w.sends_initialize

  gate-Reaches :
      (w : World) (r : Router) (s : Sender) (n c : ℕ) (o : Option Fault)
      → w.gate ≡ o
      → Reaches r (advance_at w r s (connected n c)).0
  unfolding advance_at
  gate-Reaches w r s n c none h = rw h (Reaches-self r)
  gate-Reaches w r s n c (some fault) h = rw h (Reaches-self r)

  advance_at-Reaches :
      (w : World) (r : Router) (s : Sender) (p : Point) → Reaches r (advance_at w r s p).0
  unfolding advance_at step
  advance_at-Reaches w r s placing =
      rw placed_at-router (Reaches-one r (places s.req.id s.expected (some s.cancel)) tt)
  advance_at-Reaches w r s (trying zero fault) = Reaches-self r
  advance_at-Reaches w r s (trying (suc n) fault) = Reaches-self r
  advance_at-Reaches w r s (shaking n c) = rw shaken-router (handshake-Reaches w r r.initialize)
  advance_at-Reaches w r s (connected n c) = gate-Reaches w r s n c w.gate refl
  advance_at-Reaches w r s (locked n c) =
      rw begun_at-router
        (Reaches-one r (begins s.req.id s.state c s.worktree (some s.cancel) (some w.placed)) tt)
  advance_at-Reaches w r s (begun n c) = Reaches-self r
  advance_at-Reaches w r s (taken c) = Reaches-one r (starts s.req.id s.state) tt
  advance_at-Reaches w r s (oversized c) = Reaches-one r (rejects_size c s.req.id) tt
  advance_at-Reaches w r s (retrying n c fault) =
      rw retried-router (Reaches-one r (retries s.req.id c s.state) tt)
  advance_at-Reaches w r s (giving_up c fault) =
      Reaches-one r (abandons s.req.id s.state server_error fault) tt
  advance_at-Reaches w r s (failing fault) =
      Reaches-one r (abandons s.req.id s.state (failure_code fault) fault) tt
  advance_at-Reaches w r s (finished ending) = Reaches-self r

  -- Runs of one `send` beside the other goroutines of the session: `moves` counts its own moves.
  pub data Joint (r : Router) (s : Sender) : ℕ → Router → Sender → Type 0 where
    begin : Joint r s 0 r s
    moves :
        {n : ℕ} {t : Router} {u : Sender} (w : World)
        → Joint r s n t u
        → Joint r s (suc n) (advance w t u).0 (advance w t u).1
    others :
        {n : ℕ} {t : Router} {u : Sender} (e : Event)
        → Joint r s n t u
        → IsProper t e
        → Joint r s n (step with_roots_capability cancelled_id t e) u

  pub Joint-Reaches :
      {r : Router} {s : Sender} {n : ℕ} {t : Router} {u : Sender} → Joint r s n t u → Reaches r t
  unfolding advance
  Joint-Reaches {r} begin = Reaches-self r
  Joint-Reaches (moves {t = t} {u = u} w run) =
      let (es, before) = Joint-Reaches run in
      let (fs, after) = advance_at-Reaches w t u u.point in (fs ++ es, Run-trans before after)
  Joint-Reaches (others e run p) = let (es, before) = Joint-Reaches run in (e ∷ es, next e before p)
