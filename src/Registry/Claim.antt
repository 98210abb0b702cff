-- ===== src/Registry/Claim.antt =====
-- manager.go: `claimPort`'s change of the registry, `ensureRecord` and `forget`. Starting a gopls and
-- waiting for it are parameters.
use gopls_mcp_manager.Prelude.{
  nat_eq, string_eq, int_eq, ℕ, ◌/◌, ◌≤◌, String, Bool, true, false, ◌||◌, ◌≡◌, refl, ◌⊎◌, inl, inr,
  Option, none, some, List, [], ◌∷◌, ◌++◌, length, length-append, contains, ◌==◌, ℤ, pos, pos_part,
  reached, Bool-cases, arith, if◌then◌else◌, ap, ◌∙◌,
}
use gopls_mcp_manager.Requests.Books.Placement.{below_limit}
use gopls_mcp_manager.Registry.State.{Record, record_eq, record_beq_iff, record_beq_self}
use gopls_mcp_manager.Registry.Store.{is_terminating, server_limit, no_free_port, Result, ok, err}
use gopls_mcp_manager.Registry.Ports.{is_used, allocate_port}
use gopls_mcp_manager.Registry.Allocation.{allocate_port_sound}

-- What the closure of `claimPort` sets: the record claimed, and the process it started.
pub record Claim : Type 0 where
  pub claimed : Option Record
  pub started : Option ℕ

abbrev pub unclaimed : Claim
unclaimed = record { claimed = none; started = none }

unfoldable pub find_worktree : String → List Record → Option Record
find_worktree worktree [] = none
find_worktree worktree (r ∷ records) =
    if r.worktree == worktree then some r else find_worktree worktree records

module _ (shared_servers : ℤ) (sum : ℕ) (unavailable : ℕ → Bool) (start : String → ℕ → Result ℕ)
    (now_milli : ℕ) where
  -- The record of a server that was started on `port`.
  abbrev pub started_record : String → ℕ → ℕ → Record
  started_record worktree port pid = record {
    worktree = worktree;
    port = pos port;
    pid = pos pid;
    started_at = pos (now_milli / 1000);
    started_at_milli = pos now_milli;
    terminating = false;
    uses = 0;
    used_at = pos 0;
  }

  start_on : String → List Record → ℕ → Result ℕ → Result (List Record) × Claim
  start_on worktree records port (err e) = (err e, unclaimed)
  start_on worktree records port (ok pid) =
      let claimed = started_record worktree port pid in
      (ok (records ++ claimed ∷ []), record { claimed = some claimed; started = some pid })

  allocate_on : String → List Record → Option ℕ → Result (List Record) × Claim
  unfolding start_on
  allocate_on worktree records none = (err no_free_port, unclaimed)
  allocate_on worktree records (some port) = start_on worktree records port (start worktree port)

  claim_found : String → List Record → Option Record → Result (List Record) × Claim
  unfolding allocate_on
  claim_found worktree records (some r) =
      if r.terminating
      then (err is_terminating, unclaimed)
      else (ok records, record { claimed = some r; started = none })
  claim_found worktree records none =
      if reached (length records) shared_servers
      then (err server_limit, unclaimed)
      else allocate_on worktree records (allocate_port records unavailable sum)

  -- The body that `claimPort` hands to `withSelectedRecords`.
  unfoldable pub claim_body : String → List Record → Result (List Record) × Claim
  unfolding claim_found
  claim_body worktree records = claim_found worktree records (find_worktree worktree records)

  -- `claimPort`, when the registry was read and written: a child whose record was not written is
  -- stopped.
  unfoldable pub claim_result : Result (List Record) → Claim → Result Claim × Option ℕ
  claim_result (ok records) claim = (ok claim, none)
  claim_result (err e) claim = (err e, claim.started)

-- `forget`
unfoldable pub forget_body : Record → List Record → List Record
forget_body started [] = []
forget_body started (r ∷ records) =
    let rest = forget_body started records in if r == started then rest else r ∷ rest

abbrev pub holds_port : List Record → ℤ → Bool
holds_port [] port = false
holds_port (r ∷ records) port = r.port == port || holds_port records port

-- No two records hold one port, and no two are for one worktree.
abbrev pub AreDistinct : List Record → Type 0
AreDistinct [] = Unit
AreDistinct (r ∷ records) =
    (holds_port records r.port ≡ false)
    × (find_worktree r.worktree records ≡ none)
    × AreDistinct records

holds_port-is_used :
    (records : List Record) (p : ℕ) → holds_port records (pos p) ≡ is_used records p
unfolding is_used
holds_port-is_used [] p = refl
holds_port-is_used (r ∷ records) p = ap (◌||◌ (r.port == pos p)) (holds_port-is_used records p)

holds_port-append :
    (records : List Record) (r : Record) (port : ℤ)
    → holds_port (records ++ r ∷ []) port ≡ (holds_port records port || r.port == port)
holds_port-append [] r port = ground arith
holds_port-append (x ∷ records) r port = ground (arith, holds_port-append records r port)

find_worktree-append :
    (records : List Record) (r : Record) (w : String)
    → find_worktree w records ≡ none
    → (r.worktree == w) ≡ false
    → find_worktree w (records ++ r ∷ []) ≡ none
unfolding find_worktree
find_worktree-append [] r w h e = ground arith
find_worktree-append (x ∷ records) r w h e = ground (arith, find_worktree-append records r w)

append-AreDistinct :
    (records : List Record) (r : Record)
    → holds_port records r.port ≡ false
    → find_worktree r.worktree records ≡ none
    → AreDistinct records
    → AreDistinct (records ++ r ∷ [])
unfolding find_worktree
append-AreDistinct [] r free absent d = (refl, refl, tt)
append-AreDistinct (x ∷ records) r free absent d = ground (
  arith,
  holds_port-append records r x.port,
  find_worktree-append records r x.worktree,
  append-AreDistinct records r,
  int_eq.same_iff x.port r.port,
  int_eq.same_iff r.port x.port,
  string_eq.same_iff x.worktree r.worktree,
  string_eq.same_iff r.worktree x.worktree,
)

contains-append : (records : List Record) (r : Record) → contains (records ++ r ∷ []) r ≡ true
unfolding contains
contains-append [] r = ground (arith, record_beq_self r)
contains-append (x ∷ records) r = ground (arith, contains-append records r)

find_worktree-contains :
    (w : String) (records : List Record) (r : Record)
    → find_worktree w records ≡ some r
    → (contains records r ≡ true) × (r.worktree ≡ w)
unfolding find_worktree contains
find_worktree-contains w [] r h = cc
find_worktree-contains w (x ∷ records) r h =
    ground (
      arith,
      record_beq_iff x r,
      string_eq.same_iff x.worktree w,
      find_worktree-contains w records r,
    )

-- The record claimed is in the registry, for the worktree, and not terminating.
abbrev pub IsClaimed : String → List Record → Option Record → Type 0
IsClaimed worktree updated none = ⊥
IsClaimed worktree updated (some c) =
    (contains updated c ≡ true) × (c.worktree ≡ worktree) × (c.terminating ≡ false)

abbrev pub ClaimsWell : ℤ → String → List Record → Result (List Record) × Claim → Type 0
ClaimsWell shared_servers worktree records (err e, claim) = claim ≡ unclaimed
ClaimsWell shared_servers worktree records (ok updated, claim) =
    AreDistinct updated
    × ((updated ≡ records) ⊎ (length updated ≤ pos_part shared_servers))
    × IsClaimed worktree updated claim.claimed

module _ (shared_servers : ℤ) (sum : ℕ) (unavailable : ℕ → Bool) (start : String → ℕ → Result ℕ)
    (now_milli : ℕ) (worktree : String) (records : List Record) (d : AreDistinct records) where
  start_on-ClaimsWell :
      (port : ℕ) (started : Result ℕ)
      → find_worktree worktree records ≡ none
      → reached (length records) shared_servers ≡ false
      → is_used records port ≡ false
      → ClaimsWell shared_servers worktree records
          (start_on shared_servers sum unavailable start now_milli worktree records port started)
  unfolding start_on
  start_on-ClaimsWell port (err e) absent room free = refl
  start_on-ClaimsWell port (ok pid) absent room free =
      let r : Record =
        started_record shared_servers sum unavailable start now_milli worktree port pid in
      (
        append-AreDistinct records r (holds_port-is_used records port ∙ free) absent d,
        inr (
            omega (
              arith,
              length-append records (r ∷ []),
              below_limit (length records) shared_servers room,
            )),
        (contains-append records r, refl, refl),
      )

  allocate_on-ClaimsWell :
      (o : Option ℕ)
      → ((port : ℕ) → o ≡ some port → is_used records port ≡ false)
      → find_worktree worktree records ≡ none
      → reached (length records) shared_servers ≡ false
      → ClaimsWell shared_servers worktree records
          (allocate_on shared_servers sum unavailable start now_milli worktree records o)
  unfolding allocate_on
  allocate_on-ClaimsWell none free absent room = refl
  allocate_on-ClaimsWell (some port) free absent room =
      start_on-ClaimsWell port (start worktree port) absent room (free port refl)

  claim_found-ClaimsWell :
      (o : Option Record)
      → find_worktree worktree records ≡ o
      → ClaimsWell shared_servers worktree records
          (claim_found shared_servers sum unavailable start now_milli worktree records o)
  unfolding claim_found
  claim_found-ClaimsWell (some r) h = elim (Bool-cases r.terminating) [
    | inl leaving ↦ simp leaving refl
    | inr staying ↦ simp staying (
        let (held, mine) = find_worktree-contains worktree records r h in
        (d, inl refl, (held, mine, refl)))
  ]
  claim_found-ClaimsWell none h = elim (Bool-cases (reached (length records) shared_servers)) [
    | inl full ↦ rw full refl
    | inr room ↦ rw room (
        allocate_on-ClaimsWell (allocate_port records unavailable sum)
          (λ port e. (allocate_port_sound records unavailable sum port e).1) h room)
  ]

-- From a registry with one record for a port and one for a worktree, `claimPort`'s change either
-- fails and sets nothing, or answers a registry that is so too and has, for the worktree, the record
-- that it claims, not terminating. The registry is unchanged or within the limit of servers.
pub claim_body-ClaimsWell :
    (shared_servers : ℤ) (sum : ℕ) (unavailable : ℕ → Bool) (start : String → ℕ → Result ℕ)
    (now_milli : ℕ) (worktree : String) (records : List Record)
    → AreDistinct records
    → ClaimsWell shared_servers worktree records
        (claim_body shared_servers sum unavailable start now_milli worktree records)
unfolding claim_body
claim_body-ClaimsWell shared_servers sum unavailable start now_milli worktree records d =
    claim_found-ClaimsWell shared_servers sum unavailable start now_milli worktree records d
      (find_worktree worktree records) refl
