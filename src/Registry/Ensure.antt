-- ===== src/Registry/Ensure.antt =====
-- manager.go: `ensureRecord` after the claim, and maintenance.go: `prepareAdmission` and
-- `forgetCondemned`; registry.go: the times and the identity of a server.
use gopls_mcp_manager.Prelude.{
  ℕ, nat_eq, ◌-◌, ◌+◌, ◌/◌, String, Bool, true, false, not, ◌&&◌, ◌||◌, Option, none, some, is_some,
  if◌then◌else◌, List, [], ◌∷◌, length, ◌==◌, string_eq, int_eq, ℤ, pos, negsuc, reached,
}
use gopls_mcp_manager.Registry.State.{Record}
use gopls_mcp_manager.Registry.Store.{Error, Result, ok, err}
use gopls_mcp_manager.Registry.Claim.{Claim}
use gopls_mcp_manager.Registry.Probe.{within_start_grace}

-- What `ensureRecord` comes to: a record to use, or an error, after which its own start is forgotten
-- where the stop of its process was confirmed.
pub data Ensured : Type 0 where
  usable : Record → Ensured
  refused : Error → Ensured
  not_ready : Ensured
  not_stopped : Ensured
  forgotten : Record → Ensured

-- `ready` is what `m.ready` answers, `stopped` what `started.stop` does.
module _ (now : ℕ) (ready stopped : Record → Bool) where
  unfoldable pub ensure_claimed : Option Record → Option ℕ → Ensured
  ensure_claimed none started = not_ready
  ensure_claimed (some r) started =
      if not (is_some started) && not (within_start_grace now r) || ready r
      then usable r
      else if not (is_some started)
      then not_ready
      else if stopped r
      then forgotten r
      else not_stopped

  -- `ensureRecord`
  unfoldable pub ensure_record : Result Claim → Ensured
  unfolding ensure_claimed
  ensure_record (err e) = refused e
  ensure_record (ok c) = ensure_claimed c.claimed c.started

module _ (worktree : String) (shared_servers : ℤ) where
  -- A round of `prepareAdmission`, over the records of its sweep: does it return? `all` are the
  -- records, `pending` and `requested` the loop's two variables.
  unfoldable pub admits_rest : List Record → List Record → Bool → Bool → Bool
  admits_rest all [] pending requested =
      not pending || not requested && not (reached (length all) shared_servers)
  admits_rest all (r ∷ records) pending requested =
      let rest =
        admits_rest all records (pending || r.terminating)
          (requested || r.worktree == worktree && r.terminating) in
      if r.worktree == worktree && not r.terminating then true else rest

  unfoldable pub admits : List Record → Bool
  unfolding admits_rest
  admits records = admits_rest records records false false

  -- `prepareAdmission`, by what its sweeps answer until its time is over; true where it returns
  -- without an error.
  unfoldable pub prepare_admission : List (Result (List Record)) → Bool
  unfolding admits
  prepare_admission [] = false
  prepare_admission (err e ∷ sweeps) = false
  prepare_admission (ok records ∷ sweeps) =
      let rest = prepare_admission sweeps in if admits records then true else rest

-- `n / 1000` of Go, which rounds to zero.
abbrev pub thousandth : ℤ → ℤ
thousandth (pos n) = pos (n / 1000)
thousandth (negsuc n) = if (n + 1) / 1000 == 0 then pos 0 else negsuc ((n + 1) / 1000 - 1)

pub data Start : Type 0 where
  no_start : Start
  at_milli : ℤ → Start
  at_second : ℤ → Start

-- `startedPrecisely`
unfoldable pub started_precisely : Record → Start
started_precisely r =
    if r.started_at == pos 0
    then no_start
    else if not (r.started_at_milli == pos 0) && thousandth r.started_at_milli == r.started_at
    then at_milli r.started_at_milli
    else at_second r.started_at

-- `server`: a `serverID`, the zero one where the record has no start.
unfoldable pub server : Record → ℤ × ℤ
server r = if r.started_at == pos 0 then (pos 0, pos 0) else (r.pid, r.started_at)

-- The test of `forgetCondemned`: does one of the records keep the server of `r`?
unfoldable pub is_kept : Record → List Record → Bool
is_kept r [] = false
is_kept r (kept ∷ records) =
    kept.worktree == r.worktree
      && (kept.pid == r.pid && (kept.started_at == r.started_at && not kept.terminating))
    || is_kept r records

-- `forgetCondemned`: the servers whose snapshots it drops.
unfoldable pub forget_condemned : List Record → Result (List Record) → List Record
unfolding is_kept
forget_condemned condemned (err e) = []
forget_condemned [] (ok records) = []
forget_condemned (r ∷ condemned) (ok records) =
    let rest = forget_condemned condemned (ok records) in
    if is_kept r records then rest else r ∷ rest
