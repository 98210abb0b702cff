-- ===== src/Registry/Admission.antt =====
-- When a start is admitted, and what a failed one takes back.
use gopls_mcp_manager.Prelude.{
  KeyEq, String, Bool, true, false, not, ◌&&◌, ◌||◌, ◌≡◌, refl, ◌⊎◌, inl, inr, arith, if◌then◌else◌,
  List, [], ◌∷◌, length, ◌==◌, ==-refl, list_eq, Bool-cases, string_eq, contains, ℤ, reached,
}
use gopls_mcp_manager.Registry.State.{Record, record_eq}
use gopls_mcp_manager.Registry.Store.{Result, ok, err}
use gopls_mcp_manager.Registry.Claim.{forget_body}
use gopls_mcp_manager.Registry.Ensure.{admits_rest, admits, prepare_admission}

abbrev pub runs_for : String → List Record → Bool
runs_for worktree [] = false
runs_for worktree (r ∷ records) =
    (r.worktree == worktree && not r.terminating) || runs_for worktree records

abbrev pub leaves_for : String → List Record → Bool
leaves_for worktree [] = false
leaves_for worktree (r ∷ records) =
    (r.worktree == worktree && r.terminating) || leaves_for worktree records

abbrev pub leaves : List Record → Bool
leaves [] = false
leaves (r ∷ records) = r.terminating || leaves records

-- A server runs for the worktree, or none is leaving, or none of the worktree is and there is room.
abbrev pub Admissible : String → ℤ → List Record → Type 0
Admissible worktree shared_servers records =
    (runs_for worktree records ≡ true)
    ⊎ (leaves records ≡ false)
    ⊎ ((leaves_for worktree records ≡ false) × (reached (length records) shared_servers ≡ false))

admits_rest_sound :
    (worktree : String) (shared_servers : ℤ) (all records : List Record) (pending requested : Bool)
    → admits_rest worktree shared_servers all records pending requested ≡ true
    → (runs_for worktree records ≡ true)
      ⊎ ((pending || leaves records) ≡ false)
      ⊎ (((requested || leaves_for worktree records) ≡ false)
          × (reached (length all) shared_servers ≡ false))
unfolding admits_rest
admits_rest_sound w limit all [] pending requested h = ground arith
admits_rest_sound w limit all (r ∷ records) pending requested h = ground (
  arith,
  admits_rest_sound w limit all records (pending || r.terminating)
      (requested || r.worktree == w && r.terminating),
)

abbrev pub answered_by : List (Result (List Record)) → List Record → Bool
answered_by [] records = false
answered_by (err e ∷ sweeps) records = false
answered_by (ok found ∷ sweeps) records = found == records || answered_by sweeps records

-- `prepareAdmission` lets a start pass only after a sweep that found it admissible.
pub prepare_admission-Admissible :
    (worktree : String) (shared_servers : ℤ) (sweeps : List (Result (List Record)))
    → prepare_admission worktree shared_servers sweeps ≡ true
    → (records : List Record) × (answered_by sweeps records ≡ true)
      × Admissible worktree shared_servers records
unfolding prepare_admission admits
prepare_admission-Admissible w limit [] h = cc
prepare_admission-Admissible w limit (err e ∷ sweeps) h = cc
prepare_admission-Admissible w limit (ok found ∷ sweeps) h =
    elim (Bool-cases (admits_rest w limit found found false false)) [
      | inl now ↦ (
        found,
        ground (arith, ==-refl found),
        admits_rest_sound w limit found found false false now,
      )
      | inr later ↦
          (let (records, among, fine) =
              prepare_admission-Admissible w limit sweeps (rw later at h) in
            (records, ground (arith, among), fine))
    ]

contains-without :
    {A : Type 0} ⦃e : KeyEq A⦄ (x s r : A) (kept all : List A)
    → contains kept r ≡ (contains all r && not (r == s))
    → contains (if x == s then kept else x ∷ kept) r ≡ (contains (x ∷ all) r && not (r == s))
unfolding contains
contains-without ⦃e⦄ x s r kept all h =
    ground (arith, h, e.same_iff x r, e.same_iff x s, e.same_iff r s)

pub contains-forget_body :
    (started : Record) (records : List Record) (r : Record)
    → contains (forget_body started records) r ≡ (contains records r && not (r == started))
unfolding forget_body
contains-forget_body started [] r = unfold contains in refl
contains-forget_body started (x ∷ records) r =
    contains-without x started r (forget_body started records) records
      (contains-forget_body started records r)
