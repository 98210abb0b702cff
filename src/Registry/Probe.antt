-- ===== src/Registry/Probe.antt =====
-- probe.go: what a record is worth, and maintenance.go: `sweepMaintenance`'s judgement of it. What the
-- system and git answer are parameters.
use gopls_mcp_manager.Prelude.{
  ℕ, suc, ◌+◌, ◌*◌, String, Bool, true, false, not, ◌&&◌, ◌||◌, Option, none, some, ltb, leb, ℤ,
  pos, negsuc, if◌then◌else◌, List, [], ◌∷◌, ◌==◌, string_eq,
}
use gopls_mcp_manager.Config.{second}
use gopls_mcp_manager.Registry.State.{Record, record_eq}
use gopls_mcp_manager.Registry.Store.{Verdict, uncertain, live, terminate, gone}

abbrev pub start_grace : ℕ
start_grace = 15 * second

-- `age >= 0 && age < window`, for the age at `now`, in nanoseconds, of a time in unix seconds.
unfoldable pub within_window : ℕ → ℕ → ℤ → Bool
within_window now window (pos s) = leb (second * s) now && ltb now (second * s + window)
within_window now window (negsuc n) = ltb (now + second * suc n) window

-- `withinStartGrace`
unfoldable pub within_start_grace : ℕ → Record → Bool
unfolding within_window
within_start_grace now r = within_window now start_grace r.started_at

-- What the client of the probe answers: an error, which says that the connection was refused or does
-- not, or a response's status and whether its content type begins `text/event-stream`.
pub data Response : Type 0 where
  failed : Bool → Response
  answered : ℕ → Bool → Response

pub record Probed : Type 0 where
  pub alive : Bool
  pub conclusive : Bool

-- `endpointProbe`
unfoldable pub endpoint_probe : Response → Probed
endpoint_probe (failed refused) = record { alive = false; conclusive = refused }
endpoint_probe (answered status stream) = record {
  alive = eqb_200 status && stream;
  conclusive = false;
}
  where
    eqb_200 : ℕ → Bool
    eqb_200 n = leb 200 n && leb n 200

-- The last four fields of a command, where it has four.
abbrev pub last_four : List String → Option (String × String × String × String)
last_four [] = none
last_four (a ∷ []) = none
last_four (a ∷ b ∷ []) = none
last_four (a ∷ b ∷ c ∷ []) = none
last_four (a ∷ b ∷ c ∷ d ∷ []) = some (a, b, c, d)
last_four (a ∷ b ∷ c ∷ d ∷ e ∷ rest) = last_four (b ∷ c ∷ d ∷ e ∷ rest)

-- `matchesGopls`, on the fields of the command; `base` is `filepath.Base`, `address` is `mcpAddress`.
unfoldable pub matches_gopls : (String → String) → (ℤ → String) → List String → ℤ → Bool
matches_gopls base address fields port = elim (last_four fields) [
  | none ↦ false
  | some (binary, command, flag, listen) ↦
      base binary == "gopls" && (command == "mcp" && (flag == "-listen" && listen == address port))
]

-- `identityVerdict`; `none` is a query that failed or a context that is done.
unfoldable pub identity_verdict : Option Bool → Verdict
identity_verdict none = uncertain
identity_verdict (some ours) = if ours then terminate else gone

-- What the system answers about a record's process.
pub record Observed : Type 0 where
  pub cancelled : Bool
  -- the signal 0 reaches a process
  pub exists : Bool
  pub response : Response
  pub ours : Option Bool

-- A probe that proved nothing cannot license a signal on its own.
unfoldable pub doubted : Verdict → Bool → Verdict
doubted terminate false = uncertain
doubted terminate true = terminate
doubted uncertain conclusive = uncertain
doubted live conclusive = live
doubted gone conclusive = gone

-- `recordAlive`
unfoldable pub record_alive : ℕ → Record → Observed → Verdict
record_alive now r o =
    if o.cancelled
    then uncertain
    else if not o.exists
    then gone
    else if r.terminating
    then identity_verdict o.ours
    else if within_start_grace now r
    then live
    else if (endpoint_probe o.response).alive
    then live
    else doubted (identity_verdict o.ours) (endpoint_probe o.response).conclusive

-- What `os.Stat` says of a worktree: it is a directory, it is gone (or not a directory), or neither
-- is known.
pub data Stat : Type 0 where
  directory missing unknown : Stat

-- What a sweep knows of a record besides: `busy` is `none` where the read of the pending calls fails.
pub record Upkeep : Type 0 where
  pub victim : Bool
  pub stale : Bool
  pub busy : Option Bool
  pub stat : Stat

abbrev pub idle : Option Bool → Bool
idle none = false
idle (some busy) = not busy

abbrev pub condemned : Record → Upkeep → Bool
condemned r u = (u.victim || not r.terminating && u.stale) && idle u.busy

-- The judgement that `sweepMaintenance` gives the sweep in place of `alive`.
unfoldable pub maintenance_alive : ℕ → Record → Observed → Upkeep → Verdict
maintenance_alive now r o u = elim (record_alive now r o) [
  | live ↦
      (if within_start_grace now r
        then live
        else if condemned r u
        then identity_verdict o.ours
        else elim u.stat [
          | directory ↦ live
          | unknown ↦ uncertain
          | missing ↦ identity_verdict o.ours
        ])
  | verdict ↦ verdict
]
