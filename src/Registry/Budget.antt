-- ===== src/Registry/Budget.antt =====
-- maintenance.go: `overBudget` picks the servers that the open-file budget evicts, `flushUses` adds
-- the uses to the records.
use gopls_mcp_manager.Prelude.{
  ℕ, ◌+◌, ◌*◌, ◌-◌, String, Bool, true, false, ◌&&◌, ◌||◌, Option, none, some, ltb, leb, ℤ, pos,
  negsuc, if◌then◌else◌, List, [], ◌∷◌, ◌==◌, nat_eq, int_eq, contains, Map, lookup, insert, delete,
}
use gopls_mcp_manager.Config.{second}
use gopls_mcp_manager.Registry.State.{Record}
use gopls_mcp_manager.Registry.Probe.{within_window}

abbrev pub eviction_window : ℕ
eviction_window = 300 * second

-- `total <= budget`
abbrev pub within_budget : ℕ → ℤ → Bool
within_budget total (pos b) = leb total b
within_budget total (negsuc b) = false

abbrev pub int_ltb : ℤ → ℤ → Bool
int_ltb (pos a) (pos b) = ltb a b
int_ltb (pos a) (negsuc b) = false
int_ltb (negsuc a) (pos b) = true
int_ltb (negsuc a) (negsuc b) = ltb b a

-- What the first loop of `overBudget` builds.
pub record Census : Type 0 where
  pub total : ℕ
  pub by_pid : Map ℤ Record
  pub spared : List ℤ

-- `files[pid]` is 0 for a missing key. `frequency` is `record.frequency` at `now`, an aged float64 by
-- its bit pattern.
module _ (files : ℤ → ℕ) (frequency : Record → ℕ) (busy : String → Bool) (now : ℕ) where
  unfoldable pub is_spared : Record → Bool
  is_spared r =
      r.terminating
      || (busy r.worktree
          || (leb (files r.pid) 0 || within_window now eviction_window r.started_at))

  -- One round of the first loop; `previous` is `byPID[r.PID]`.
  unfoldable pub counted : Record → Census → Option Record → Census
  unfolding is_spared
  counted r c none = record {
    total = c.total + files r.pid;
    by_pid = insert r.pid r c.by_pid;
    spared = if is_spared r then r.pid ∷ c.spared else c.spared;
  }
  counted r c (some previous) = record {
    total = c.total;
    by_pid = if ltb (frequency previous) (frequency r) then insert r.pid r c.by_pid else c.by_pid;
    spared = if is_spared r then r.pid ∷ c.spared else c.spared;
  }

  -- The first loop.
  unfoldable pub census : List Record → Census → Census
  unfolding counted
  census [] c = c
  census (r ∷ records) c = census records (counted r c (lookup r.pid c.by_pid))

  -- The loop of the candidates: each process once, by its hottest record.
  unfoldable pub candidates : List Record → List ℤ → Map ℤ Record → List Record
  candidates [] spared by_pid = []
  candidates (r ∷ records) spared by_pid = elim (lookup r.pid by_pid) [
    | none ↦ candidates records spared by_pid
    | some candidate ↦
        (let rest = candidates records spared (delete r.pid by_pid) in
          let skipped = candidates records spared by_pid in
          if contains spared r.pid then skipped else candidate ∷ rest)
  ]

  -- `cmp.Compare` of the frequencies, then of the times of use: does `a` come after `b`?
  abbrev pub is_after : Record → Record → Bool
  is_after a b =
      ltb (frequency b) (frequency a) || (frequency a == frequency b && int_ltb b.used_at a.used_at)

  unfoldable pub insert_sorted : Record → List Record → List Record
  insert_sorted r [] = r ∷ []
  insert_sorted r (x ∷ sorted) =
      let rest = insert_sorted r sorted in if is_after r x then x ∷ rest else r ∷ x ∷ sorted

  -- `slices.SortStableFunc`
  unfoldable pub sort_stable : List Record → List Record
  unfolding insert_sorted
  sort_stable [] = []
  sort_stable (r ∷ records) = insert_sorted r (sort_stable records)

  -- The last loop: the victims and the total left.
  unfoldable pub take_victims : ℤ → List Record → ℕ → List Record × ℕ
  take_victims budget [] total = ([], total)
  take_victims budget (r ∷ candidates) total =
      let (victims, left) = take_victims budget candidates (total - files r.pid) in
      if within_budget total budget then ([], total) else (r ∷ victims, left)

  abbrev pub no_census : Census
  no_census = record { total = 0; by_pid = []; spared = [] }

  unfoldable pub ranked : List Record → List Record
  unfolding candidates sort_stable
  ranked records =
      let c = census records no_census in sort_stable (candidates records c.spared c.by_pid)

  -- `overBudget`
  unfoldable pub over_budget : List Record → ℤ → List Record × ℕ
  unfolding ranked take_victims
  over_budget records budget = take_victims budget (ranked records) (census records no_census).total
