-- ===== src/Registry/Judgement.antt =====
-- When the judgement of a record condemns a process, and when it drops a record.
use gopls_mcp_manager.Prelude.{ℕ, Bool, true, false, ◌≡◌, ◌⊎◌, Option, none, some, arith}
use gopls_mcp_manager.Registry.State.{Record}
use gopls_mcp_manager.Registry.Store.{Verdict, uncertain, live, terminate, gone}
use gopls_mcp_manager.Registry.Probe.{
  within_start_grace, Response, failed, answered, endpoint_probe, identity_verdict, doubted,
  Observed, record_alive, directory, missing, Upkeep, condemned, maintenance_alive,
}

-- The process may be told to terminate: it runs and is a gopls of this manager, and its record is
-- leaving, or is older than the start grace and its connection is refused.
abbrev pub MayTerminate : ℕ → Record → Observed → Type 0
MayTerminate now r o =
    (o.cancelled ≡ false)
    × (o.exists ≡ true)
    × (o.ours ≡ some true)
    × ((r.terminating ≡ true) ⊎ ((within_start_grace now r ≡ false) × (o.response ≡ failed true)))

abbrev pub MayDrop : Observed → Type 0
MayDrop o = (o.cancelled ≡ false) × ((o.exists ≡ false) ⊎ (o.ours ≡ some false))

identity-terminate : (o : Option Bool) → identity_verdict o ≡ terminate → o ≡ some true
unfolding identity_verdict
identity-terminate none h = ground arith
identity-terminate (some b) h = ground arith

identity-gone : (o : Option Bool) → identity_verdict o ≡ gone → o ≡ some false
unfolding identity_verdict
identity-gone none h = ground arith
identity-gone (some b) h = ground arith

doubted-terminate :
    (v : Verdict) (b : Bool) → doubted v b ≡ terminate → (v ≡ terminate) × (b ≡ true)
unfolding doubted
doubted-terminate terminate b h = ground arith
doubted-terminate uncertain b h = ground arith
doubted-terminate live b h = ground arith
doubted-terminate gone b h = ground arith

doubted-gone : (v : Verdict) (b : Bool) → doubted v b ≡ gone → v ≡ gone
unfolding doubted
doubted-gone terminate b h = ground arith
doubted-gone uncertain b h = ground arith
doubted-gone live b h = ground arith
doubted-gone gone b h = ground arith

endpoint-conclusive :
    (response : Response) → (endpoint_probe response).conclusive ≡ true → response ≡ failed true
unfolding endpoint_probe
endpoint-conclusive (failed b) h = ground arith
endpoint-conclusive (answered n b) h = ground arith

record_alive-terminate :
    (now : ℕ) (r : Record) (o : Observed) → record_alive now r o ≡ terminate → MayTerminate now r o
unfolding record_alive
record_alive-terminate now r o h = ground (
  arith,
  identity-terminate o.ours,
  doubted-terminate (identity_verdict o.ours) (endpoint_probe o.response).conclusive,
  endpoint-conclusive o.response,
)

record_alive-gone : (now : ℕ) (r : Record) (o : Observed) → record_alive now r o ≡ gone → MayDrop o
unfolding record_alive
record_alive-gone now r o h = ground (
  arith,
  identity-gone o.ours,
  doubted-gone (identity_verdict o.ours) (endpoint_probe o.response).conclusive,
)

-- What upkeep may hold against a server that runs: it is a victim, or missed a change while its
-- worktree is not busy, or its worktree is gone.
abbrev pub IsUnwanted : ℕ → Record → Upkeep → Type 0
IsUnwanted now r u =
    (within_start_grace now r ≡ false) × ((condemned r u ≡ true) ⊎ (u.stat ≡ missing))

module _ (now : ℕ) (r : Record) (o : Observed) (u : Upkeep) where
  maintenance-terminate :
      maintenance_alive now r o u ≡ terminate
      → MayTerminate now r o ⊎ ((o.ours ≡ some true) × IsUnwanted now r u)
  unfolding maintenance_alive
  maintenance-terminate h =
      ground (arith, record_alive-terminate now r o, identity-terminate o.ours)

  maintenance-gone :
      maintenance_alive now r o u ≡ gone → MayDrop o ⊎ ((o.ours ≡ some false) × IsUnwanted now r u)
  unfolding maintenance_alive
  maintenance-gone h = ground (arith, record_alive-gone now r o, identity-gone o.ours)

  maintenance-keeps :
      record_alive now r o ≡ live
      → (within_start_grace now r ≡ true) ⊎ ((condemned r u ≡ false) × (u.stat ≡ directory))
      → maintenance_alive now r o u ≡ live
  unfolding maintenance_alive
  maintenance-keeps h spared = ground arith

-- A sweep condemns a process only where it may terminate, or where it is a gopls of this manager
-- that is unwanted; it drops a record only where its process is gone or another's, or an unwanted
-- record is another's. A record that is live stays so where it is within the start grace, or is not
-- condemned and has its worktree.
pub maintenance_alive_sound :
    (now : ℕ) (r : Record) (o : Observed) (u : Upkeep)
    → (maintenance_alive now r o u ≡ terminate
        → MayTerminate now r o ⊎ ((o.ours ≡ some true) × IsUnwanted now r u))
      × (maintenance_alive now r o u ≡ gone
          → MayDrop o ⊎ ((o.ours ≡ some false) × IsUnwanted now r u))
      × (record_alive now r o ≡ live
          → (within_start_grace now r ≡ true) ⊎ ((condemned r u ≡ false) × (u.stat ≡ directory))
          → maintenance_alive now r o u ≡ live)
maintenance_alive_sound now r o u =
    (maintenance-terminate now r o u, maintenance-gone now r o u, maintenance-keeps now r o u)
