-- ===== src/Examples/Registry.antt =====
-- Two servers: one that runs, one that leaves.
use gopls_mcp_manager.Prelude.{
  is_some, ◌&&◌, ◌==◌, not, ℕ, zero, suc, ◌+◌, insert, IsUnique, String, Bool, true, false, ◌||◌,
  ◌≡◌, ◌≢◌, ◌⊎◌, refl, none, some, List, [], ◌∷◌, Map, lookup, contains, ℤ, pos, arith, nat_eq,
  string_eq, int_eq,
}
use gopls_mcp_manager.Registry.State.{Record, record_eq, port_count}
use gopls_mcp_manager.Registry.Store.{
  MapFile, Result, ok, err, invalid_utf8, Verdict, live, terminate, gone, read_map, managed_lines,
  with_map, committed, stored_as, write_map, first_invalid, reconcile, verdict_of,
  with_selected_records, after_sweep, signals, probe_all, swept_body,
}
use gopls_mcp_manager.Registry.Sweep.{read_map-with_map, reconcile_keeps, signalled_durable}
use gopls_mcp_manager.Registry.Ports.{allocate_port, search_port, next_port, base_port, is_used}
use gopls_mcp_manager.Registry.Allocation.{InRange, allocate_port_sound, allocate_port_complete}
use gopls_mcp_manager.Registry.Claim.{
  AreDistinct, ClaimsWell, claim_body, claim_body-ClaimsWell, forget_body, find_worktree,
}
use gopls_mcp_manager.Registry.Probe.{
  Observed, Upkeep, answered, condemned, directory, record_alive, maintenance_alive,
  within_start_grace,
}
use gopls_mcp_manager.Registry.Judgement.{
  MayTerminate, MayDrop, IsUnwanted, maintenance_alive_sound,
}
use gopls_mcp_manager.Registry.Budget.{
  over_budget, within_budget, census, no_census, ranked, is_spared,
}
use gopls_mcp_manager.Registry.Eviction.{files_of, over_budget_sound}
use gopls_mcp_manager.Registry.Pending.{
  dead, starts, PendingDir, listed, busy_worktrees, mark_published, mark_all, own_busy, in_dir,
  has_own, busy_worktrees-fresh,
}
use gopls_mcp_manager.Registry.Ensure.{prepare_admission, admits, admits_rest}
use gopls_mcp_manager.Registry.Admission.{
  Admissible, answered_by, prepare_admission-Admissible, contains-forget_body,
}
use gopls_mcp_manager.Registry.Uses.{flush_uses, with_uses, count, flush_uses-failed}

abbrev running : Record
running = record {
  worktree = "/a";
  port = pos 61100;
  pid = pos 10;
  started_at = pos 100;
  started_at_milli = pos 100000;
  terminating = false;
  uses = 0;
  used_at = pos 0;
}

abbrev leaving : Record
leaving = record running { worktree = "/b"; port = pos 61101; pid = pos 11; terminating = true }

abbrev served : MapFile
served = some (some running ∷ some leaving ∷ [])

abbrev any_text : String → Bool
any_text s = true

abbrev keep : List Record → Result (List Record) × Bool
keep records = (ok records, true)

abbrev all_ours : Record → Bool
all_ours r = true

abbrev refuses : Record → Verdict
refuses r = terminate

leaving_signalled :
    contains
      (with_selected_records any_text "" refuses all_ours keep false served served served).signalled
      leaving
    ≡ true
unfolding with_selected_records after_sweep with_map committed stored_as write_map first_invalid
    read_map managed_lines contains swept_body reconcile lookup probe_all insert signals
leaving_signalled = refl

signalled_durable_example :
    (leaving.terminating ≡ true)
    × (contains (read_map served).0 leaving ≡ true)
    × (all_ours leaving ≡ true)
signalled_durable_example =
    signalled_durable any_text "" refuses all_ours keep false served served served leaving
      leaving_signalled

abbrev drop_last : List Record → Result (List Record) × Bool
drop_last records = (ok (running ∷ []), true)

dropped : (with_map any_text served drop_last).1 ≡ ok (running ∷ [])
unfolding with_map committed read_map write_map
dropped = refl

read_map-with_map_example : read_map (with_map any_text served drop_last).0 ≡ (running ∷ [], true)
read_map-with_map_example =
    read_map-with_map any_text served drop_last (running ∷ []) (refl, tt) dropped

abbrev verdicts : Map Record Verdict
verdicts = (running, live) ∷ (leaving, gone) ∷ []

running_listed : contains (running ∷ leaving ∷ []) running ≡ true
unfolding contains
running_listed = refl

running_not_gone : verdict_of verdicts running ≢ gone
unfolding lookup
running_not_gone h = cc

running_not_terminate : verdict_of verdicts running ≢ terminate
unfolding lookup
running_not_terminate h = cc

reconcile_keeps_example : contains (reconcile verdicts (running ∷ leaving ∷ [])).0 running ≡ true
reconcile_keeps_example =
    reconcile_keeps verdicts (running ∷ leaving ∷ []) running running_listed running_not_gone
      running_not_terminate

abbrev all_taken : ℕ → Bool
all_taken port = true

abbrev none_taken : ℕ → Bool
none_taken port = false

none_free : (n port : ℕ) → search_port (running ∷ []) all_taken n port ≡ none
unfolding search_port
none_free zero port = refl
none_free (suc n) port = ground (arith, none_free n (next_port port))

full : allocate_port (running ∷ []) all_taken 7 ≡ none
unfolding allocate_port
full = none_free port_count (base_port 7)

allocate_port_complete_example : (is_used (running ∷ []) 61100 || all_taken 61100) ≡ true
allocate_port_complete_example =
    allocate_port_complete (running ∷ []) all_taken 7 61100 full (omega arith) (omega arith)

second_port : allocate_port (running ∷ []) none_taken 0 ≡ some 61101
unfolding allocate_port search_port next_port base_port is_used
second_port = refl

allocate_port_sound_example :
    InRange 61101 × (is_used (running ∷ []) 61101 ≡ false) × (none_taken 61101 ≡ false)
allocate_port_sound_example = allocate_port_sound (running ∷ []) none_taken 0 61101 second_port

abbrev started : String → ℕ → Result ℕ
started worktree port = ok 12

distinct : AreDistinct (running ∷ leaving ∷ [])
unfolding find_worktree
distinct = (refl, refl, (refl, refl, tt))

claim_body-ClaimsWell_example :
    ClaimsWell
      (pos 64)
      "/c"
      (running ∷ leaving ∷ [])
      (claim_body (pos 64) 0 none_taken started 500000 "/c" (running ∷ leaving ∷ []))
claim_body-ClaimsWell_example =
    claim_body-ClaimsWell (pos 64) 0 none_taken started 500000 "/c" (running ∷ leaving ∷ [])
      distinct

-- A server that runs and is wanted.
abbrev answers : Observed
answers = record {
  cancelled = false;
  exists = true;
  response = answered 200 true;
  ours = some true;
}

abbrev wanted : Upkeep
wanted = record { victim = true; stale = false; busy = some true; stat = directory }

maintenance_alive_sound_example :
    (maintenance_alive 200000000000 running answers wanted ≡ terminate
      → MayTerminate 200000000000 running answers
        ⊎ ((answers.ours ≡ some true) × IsUnwanted 200000000000 running wanted))
    × (maintenance_alive 200000000000 running answers wanted ≡ gone
        → MayDrop answers ⊎ ((answers.ours ≡ some false) × IsUnwanted 200000000000 running wanted))
    × (record_alive 200000000000 running answers ≡ live
        → (within_start_grace 200000000000 running ≡ true)
          ⊎ ((condemned running wanted ≡ false) × (wanted.stat ≡ directory))
        → maintenance_alive 200000000000 running answers wanted ≡ live)
maintenance_alive_sound_example = maintenance_alive_sound 200000000000 running answers wanted

abbrev forty_files : ℤ → ℕ
forty_files pid = 40

abbrev by_uses : Record → ℕ
by_uses r = r.uses

abbrev no_worktree : String → Bool
no_worktree worktree = false

over_budget_sound_example :
    (files_of forty_files
          (over_budget forty_files by_uses no_worktree 0 (running ∷ leaving ∷ []) (pos 50)).0
        + (over_budget forty_files by_uses no_worktree 0 (running ∷ leaving ∷ []) (pos 50)).1
      ≡ (census forty_files by_uses no_worktree 0
          (running ∷ leaving ∷ [])
          (no_census forty_files by_uses no_worktree 0)).total)
    × ((within_budget
            (over_budget forty_files by_uses no_worktree 0 (running ∷ leaving ∷ []) (pos 50)).1
            (pos 50)
          ≡ true)
        ⊎ ((over_budget forty_files by_uses no_worktree 0 (running ∷ leaving ∷ []) (pos 50)).0
            ≡ ranked forty_files by_uses no_worktree 0 (running ∷ leaving ∷ [])))
    × ((v r : Record)
        → contains
            (over_budget forty_files by_uses no_worktree 0 (running ∷ leaving ∷ []) (pos 50)).0
            v
          ≡ true
        → contains (running ∷ leaving ∷ []) r ≡ true
        → r.pid ≡ v.pid
        → is_spared forty_files by_uses no_worktree 0 r ≡ false)
over_budget_sound_example =
    over_budget_sound forty_files by_uses no_worktree 0 (running ∷ leaving ∷ []) (pos 50)

abbrev no_text : String → Bool
no_text s = false

abbrev adds : Record → ℕ → ℕ
adds r n = r.uses + n

abbrev flushed : Map String ℕ
flushed = ("/a", 3) ∷ []

abbrev meanwhile : Map String ℕ
meanwhile = ("/a", 1) ∷ ("/b", 2) ∷ []

not_written :
    (flush_uses adds (pos 600) flushed no_text served meanwhile).1 ≡ err (invalid_utf8 "/a")
unfolding flush_uses with_map committed read_map with_uses lookup write_map
not_written = refl

only_a : IsUnique flushed
unfolding lookup
only_a = (refl, tt)

flush_uses-failed_example :
    ((flush_uses adds (pos 600) flushed no_text served meanwhile).0 ≡ served)
    × ((worktree : String)
        → count worktree (flush_uses adds (pos 600) flushed no_text served meanwhile).2
          ≡ count worktree flushed + count worktree meanwhile)
flush_uses-failed_example =
    flush_uses-failed adds (pos 600) flushed meanwhile no_text served (invalid_utf8 "/a") only_a
      not_written

abbrev other_manager : PendingDir
other_manager = listed (dead ∷ starts (("/a", 5) ∷ []) ∷ [])

abbrev busy_a : Map String Bool
busy_a = ("/a", true) ∷ []

a_busy : busy_worktrees 10 none other_manager ≡ some busy_a
unfolding busy_worktrees mark_published mark_all own_busy insert
a_busy = refl

busy_worktrees-fresh_example :
    is_some (lookup "/a" busy_a) ≡ (in_dir 10 "/a" other_manager || has_own 10 "/a" none)
busy_worktrees-fresh_example = busy_worktrees-fresh 10 "/a" none other_manager busy_a a_busy

abbrev one_sweep : List (Result (List Record))
one_sweep = ok (running ∷ leaving ∷ []) ∷ []

passes : prepare_admission "/c" (pos 64) (ok (running ∷ []) ∷ one_sweep) ≡ true
unfolding prepare_admission admits admits_rest
passes = refl

prepare_admission-Admissible_example :
    (records : List Record) × (answered_by (ok (running ∷ []) ∷ one_sweep) records ≡ true)
    × Admissible "/c" (pos 64) records
prepare_admission-Admissible_example =
    prepare_admission-Admissible "/c" (pos 64) (ok (running ∷ []) ∷ one_sweep) passes

contains-forget_body_example :
    contains (forget_body leaving (running ∷ leaving ∷ [])) running
    ≡ (contains (running ∷ leaving ∷ []) running && not (running == leaving))
contains-forget_body_example = contains-forget_body leaving (running ∷ leaving ∷ []) running
