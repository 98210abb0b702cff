-- ===== src/Registry/Store.antt =====
-- registry.go: the file of the records. Its lines are what `readMap` decodes: `none` is one that does
-- not parse. Failing system calls are not modelled.
use gopls_mcp_manager.Prelude.{
  nat_eq, list_eq, string_eq, contains, ◌||◌, String, Bool, true, ◌&&◌, Option, none, some, List,
  [], ◌∷◌, map, length, ◌==◌, Map, lookup, insert, if◌then◌else◌,
}
use gopls_mcp_manager.Registry.State.{Record, record_eq, is_managed}

abbrev pub MapFile : Type 0
MapFile = Option (List (Option Record))

pub data Error : Type 0 where
  is_terminating server_limit no_free_port start_failed : Error
  invalid_utf8 : String → Error

pub data Result {ℓ} (A : Type ℓ) : Type ℓ where
  ok : A → Result A
  err : Error → Result A

unfoldable pub managed_lines : List (Option Record) → List Record
managed_lines [] = []
managed_lines (none ∷ lines) = managed_lines lines
managed_lines (some r ∷ lines) =
    let rest = managed_lines lines in if is_managed r then r ∷ rest else rest

-- `readMap`: the records, and whether the file holds nothing else.
unfoldable pub read_map : MapFile → List Record × Bool
unfolding managed_lines
read_map none = ([], true)
read_map (some lines) =
    let records = managed_lines lines in (records, length records == length lines)

module _ (valid_utf8 : String → Bool) where
  unfoldable pub first_invalid : List Record → Option String
  first_invalid [] = none
  first_invalid (r ∷ records) =
      let rest = first_invalid records in if valid_utf8 r.worktree then rest else some r.worktree

  -- `writeMap`: the file, which takes the old one's place, or the error that leaves the old one.
  unfoldable pub write_map : List Record → Result MapFile
  unfolding first_invalid
  write_map records = elim (first_invalid records) [
    | none ↦ ok (some (map some records))
    | some worktree ↦ err (invalid_utf8 worktree)
  ]

  module _ {S : Type 0} where
    unfoldable pub stored_as :
        MapFile → List Record → S → Result MapFile → MapFile × Result (List Record) × S
    stored_as file updated s (ok written) = (written, ok updated, s)
    stored_as file updated s (err e) = (file, err e, s)

    unfoldable pub committed :
        MapFile → Result (List Record) × S → MapFile × Result (List Record) × S
    unfolding stored_as
    committed file (err e, s) = (file, err e, s)
    committed file (ok updated, s) =
        let (stored, intact) = read_map file in
        if intact && stored == updated
        then (file, ok updated, s)
        else stored_as file updated s (write_map updated)

    -- `withMap`, under the lock. `body` also answers what its closure sets.
    unfoldable pub with_map :
        MapFile → (List Record → Result (List Record) × S) → MapFile × Result (List Record) × S
    unfolding committed
    with_map file body = committed file (body (read_map file).0)

-- `probeVerdict`
pub data Verdict : Type 0 where
  uncertain live terminate gone : Verdict

-- `byRecord`, where the selected records were probed. An empty worktree selects all.
unfoldable pub probe_all : String → (Record → Verdict) → List Record → Map Record Verdict
probe_all worktree alive [] = []
probe_all worktree alive (r ∷ records) =
    insert r (if worktree == "" || worktree == r.worktree then alive r else uncertain)
      (probe_all worktree alive records)

-- `byRecord[r]`: an absent or replaced record is uncertain.
abbrev pub verdict_of : Map Record Verdict → Record → Verdict
verdict_of verdicts r = elim (lookup r verdicts) [ none ↦ uncertain | some v ↦ v ]

-- The loop under the lock: the records kept, and those that become terminating.
unfoldable pub reconcile : Map Record Verdict → List Record → List Record × List Record
reconcile verdicts [] = ([], [])
reconcile verdicts (r ∷ current) =
    let (kept, terminating) = reconcile verdicts current in
    elim (verdict_of verdicts r) [
      | gone ↦ (kept, terminating)
      | terminate ↦ (let r' = record r { terminating = true } in (r' ∷ kept, r' ∷ terminating))
      | _ ↦ (r ∷ kept, terminating)
    ]

-- The first commit of `withSelectedRecords`: cleanup alone, where something terminates.
module _ {S : Type 0} (body : List Record → Result (List Record) × S) (unset : S) where
  unfoldable pub swept_body :
      Map Record Verdict → List Record → Result (List Record) × (S × List Record)
  swept_body verdicts current =
      let (kept, terminating) = reconcile verdicts current in
      elim terminating [
        | [] ↦ (let (result, s) = body kept in (result, (s, [])))
        | r ∷ rest ↦ (ok kept, (unset, r ∷ rest))
      ]

-- `signalTerminating`: does it signal the process of `r`? `file` is what the registry holds then,
-- and `ours` the second check of the process's identity.
unfoldable pub signal_terminating : MapFile → (Record → Bool) → Record → Bool
signal_terminating file ours r = contains (read_map file).0 r && ours r

pub record Swept (S : Type 0) : Type 0 where
  pub file : MapFile
  pub result : Result (List Record)
  pub set : S
  -- the records whose processes were signalled
  pub signalled : List Record

unfoldable pub signals : MapFile → (Record → Bool) → List Record → List Record
unfolding signal_terminating
signals file ours [] = []
signals file ours (r ∷ records) =
    let rest = signals file ours records in
    if signal_terminating file ours r then r ∷ rest else rest

module _ {S : Type 0} (valid_utf8 : String → Bool) where
  unfoldable pub after_sweep :
      MapFile
      → (Record → Bool)
      → (List Record → Result (List Record) × S)
      → MapFile × Result (List Record) × (S × List Record)
      → Swept S
  after_sweep later ours body (file, err e, (s, terminating)) = record {
    file = file;
    result = err e;
    set = s;
    signalled = [];
  }
  after_sweep later ours body (file, ok updated, (s, [])) = record {
    file = file;
    result = ok updated;
    set = s;
    signalled = [];
  }
  after_sweep later ours body (file, ok updated, (s, r ∷ terminating)) =
      let (file', result, s') = with_map valid_utf8 later body in
      record {
        file = file';
        result = result;
        set = s';
        signalled = signals later ours (r ∷ terminating);
      }

  -- `withSelectedRecords`. Other processes may write the file in between: `snapshot` is what was
  -- probed, `current` what the first commit finds, and `later` what the signals and the second find.
  unfoldable pub with_selected_records :
      String
      → (Record → Verdict)
      → (Record → Bool)
      → (List Record → Result (List Record) × S)
      → S
      → MapFile
      → MapFile
      → MapFile
      → Swept S
  unfolding after_sweep
  with_selected_records worktree alive ours body unset snapshot current later =
      let verdicts = probe_all worktree alive (read_map snapshot).0 in
      after_sweep later ours body
        (with_map valid_utf8 current (λ records. swept_body body unset verdicts records))
