-- ===== src/Registry/Sweep.antt =====
-- What a pass over the registry keeps, writes and signals.
use gopls_mcp_manager.Prelude.{
  nat_eq, list_eq, list_beq_iff, string_eq, contains, suc, String, Bool, true, ◌≡◌, refl, ap, ◌≢◌,
  Option, some, List, [], ◌∷◌, map, length, Map, arith,
}
use gopls_mcp_manager.Registry.State.{Record, record_eq, record_beq_iff, is_managed}
use gopls_mcp_manager.Registry.Store.{
  MapFile, Result, ok, err, managed_lines, read_map, write_map, with_map, Verdict, terminate, gone,
  probe_all, verdict_of, reconcile, after_sweep, swept_body, signals, with_selected_records,
  committed, stored_as,
}

abbrev pub AllManaged : List Record → Type 0
AllManaged [] = Unit
AllManaged (r ∷ records) = (is_managed r ≡ true) × AllManaged records

managed-map :
    (records : List Record) → AllManaged records → managed_lines (map some records) ≡ records
unfolding managed_lines
managed-map [] h = refl
managed-map (r ∷ records) h = rw h.0 (ap (◌∷◌ r) (managed-map records h.1))

abbrev as_line : Record → Option Record
as_line r = some r

length-map : (records : List Record) → length (map as_line records) ≡ length records
length-map [] = refl
length-map (r ∷ records) = ap suc (length-map records)

read-written :
    (records : List Record)
    → AllManaged records
    → read_map (some (map some records)) ≡ (records, true)
unfolding read_map
read-written records h = ground (arith, managed-map records h, length-map records)

module _ (valid_utf8 : String → Bool) {S : Type 0} where
  committed_reads :
      (file : MapFile) (p : Result (List Record) × S) (updated : List Record)
      → AllManaged updated
      → (committed valid_utf8 file p).1 ≡ ok updated
      → read_map (committed valid_utf8 file p).0 ≡ (updated, true)
  unfolding committed stored_as write_map
  committed_reads file (err e, s) updated h q = cc
  committed_reads file (ok u, s) updated h q =
      ground (arith, read-written updated h, list_beq_iff (read_map file).0 u)

  -- Where `withMap` succeeds with records that `readMap` accepts, the file reads back as those
  -- records and holds nothing else, whether it was written or left as it was.
  pub read_map-with_map :
      (file : MapFile) (body : List Record → Result (List Record) × S) (updated : List Record)
      → AllManaged updated
      → (with_map valid_utf8 file body).1 ≡ ok updated
      → read_map (with_map valid_utf8 file body).0 ≡ (updated, true)
  unfolding with_map
  read_map-with_map file body updated h q =
      committed_reads file (body (read_map file).0) updated h q

pub reconcile_keeps :
    (verdicts : Map Record Verdict) (current : List Record) (r : Record)
    → contains current r ≡ true
    → verdict_of verdicts r ≢ gone
    → verdict_of verdicts r ≢ terminate
    → contains (reconcile verdicts current).0 r ≡ true
unfolding contains reconcile
reconcile_keeps verdicts [] r h g t = cc
reconcile_keeps verdicts (x ∷ current) r h g t =
    ground (arith, record_beq_iff x r, reconcile_keeps verdicts current r)

terminating_marked :
    (verdicts : Map Record Verdict) (current : List Record) (r : Record)
    → contains (reconcile verdicts current).1 r ≡ true
    → r.terminating ≡ true
unfolding contains reconcile
terminating_marked verdicts [] r h = cc
terminating_marked verdicts (x ∷ current) r h = ground (
  arith,
  record_beq_iff (record x { terminating = true }) r,
  terminating_marked verdicts current r,
)

signals_checked :
    (file : MapFile) (ours : Record → Bool) (records : List Record) (r : Record)
    → contains (signals file ours records) r ≡ true
    → (contains records r ≡ true) × (contains (read_map file).0 r ≡ true) × (ours r ≡ true)
unfolding contains signals
signals_checked file ours [] r h = cc
signals_checked file ours (x ∷ records) r h =
    ground (arith, record_beq_iff x r, signals_checked file ours records r)

committed-set :
    (valid_utf8 : String → Bool) {S : Type 0} (file : MapFile) (p : Result (List Record) × S)
    → (committed valid_utf8 file p).2 ≡ p.1
unfolding committed stored_as
committed-set valid_utf8 file (err e, s) = refl
committed-set valid_utf8 file (ok u, s) = ground arith

module _ {S : Type 0} (valid_utf8 : String → Bool) (worktree : String) (alive : Record → Verdict)
    (ours : Record → Bool) (body : List Record → Result (List Record) × S) (unset : S)
    (snapshot current later : MapFile) where
  abbrev swept_set : (p : Result (List Record) × (S × List Record)) → List Record
  swept_set p = p.1.1

  swept_marked :
      (verdicts : Map Record Verdict) (records : List Record) (r : Record)
      → contains (swept_body body unset verdicts records).1.1 r ≡ true
      → r.terminating ≡ true
  unfolding swept_body contains
  swept_marked verdicts records r h = ground (arith, terminating_marked verdicts records r)

  after_signals :
      (p : MapFile × Result (List Record) × (S × List Record)) (r : Record)
      → contains (after_sweep valid_utf8 later ours body p).signalled r ≡ true
      → contains p.2.1 r ≡ true × (contains (read_map later).0 r ≡ true) × (ours r ≡ true)
  unfolding after_sweep contains
  after_signals (file, err e, (s, terminating)) r h = cc
  after_signals (file, ok u, (s, [])) r h = cc
  after_signals (file, ok u, (s, x ∷ terminating)) r h =
      signals_checked later ours (x ∷ terminating) r h

  -- A pass over the registry signals only a process whose record is marked as terminating, and
  -- which the registry holds with that mark when the signal is sent, and which a check of its
  -- identity at that time found to be a gopls of this manager.
  pub signalled_durable :
      (r : Record)
      → contains
          (with_selected_records valid_utf8 worktree alive ours body unset snapshot current
            later).signalled
          r
        ≡ true
      → (r.terminating ≡ true) × (contains (read_map later).0 r ≡ true) × (ours r ≡ true)
  unfolding with_selected_records with_map
  signalled_durable r h =
      let verdicts = probe_all worktree alive (read_map snapshot).0 in
      let swept = swept_body body unset verdicts (read_map current).0 in
      let (mine, held, checked) = after_signals (committed valid_utf8 current swept) r h in
      (
        swept_marked verdicts (read_map current).0 r
            (rw (committed-set valid_utf8 current swept) at mine),
        held,
        checked,
      )
