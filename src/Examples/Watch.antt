-- ===== src/Examples/Watch.antt =====
-- A worktree with a package, and a vendored tree that a rule excludes.
use gopls_mcp_manager.Prelude.{
  ℕ, String, true, false, ◌≡◌, refl, inl, inr, ◌⊎◌, sym, ap, subst, Option, none, some, List, [],
  ◌∷◌, ◌++◌, ◌↔◌, lookup, pos, nat_eq, string_eq, int_eq, list_eq, pair_eq,
}
use gopls_mcp_manager.Registry.State.{Record}
use gopls_mcp_manager.Registry.Ensure.{server}
use gopls_mcp_manager.Watch.Names.{skipped_by_watcher}
use gopls_mcp_manager.Watch.Filters.{
  RelPath, Rule, excludes, includes, compile, match_string, judge, path_include_func, plus_paths,
  any_leads, rule_path, new_dir_filter,
}
use gopls_mcp_manager.Watch.Matching.{Names, match_string_iff}
use gopls_mcp_manager.Watch.Pruning.{new_dir_filter-prunes}
use gopls_mcp_manager.Watch.Planner.{
  Node, regular, directory, Entries, end, entry, plan_watch, relevant_names,
}
use gopls_mcp_manager.Watch.Coverage.{Visible, is_covered}
use gopls_mcp_manager.Watch.Plan.{plan_watch-covers}
use gopls_mcp_manager.Watch.Sound.{IsSound, plan_watch-IsSound}
use gopls_mcp_manager.Watch.Roots.{Has, here, there, Stands, top, under}
use gopls_mcp_manager.Watch.Snapshots.{
  WatchSnapshot, remember_watch, watch_changed, describes, partial_changed, is_current,
}
use gopls_mcp_manager.Watch.Recorded.{watch_changed-quiet}
use gopls_mcp_manager.Watch.Generations.{
  Answer, answers, held_for, answers-snapshot, watch_changed-seen,
}

match_string_iff_example :
    (match_string (compile ("a" ∷ "**" ∷ "b" ∷ [])) ("a" ∷ "x" ∷ "b" ∷ "c" ∷ []) ≡ true)
    ↔ Names ("a" ∷ "**" ∷ "b" ∷ []) ("a" ∷ "x" ∷ "b" ∷ "c" ∷ [])
match_string_iff_example = match_string_iff ("a" ∷ "**" ∷ "b" ∷ []) ("a" ∷ "x" ∷ "b" ∷ "c" ∷ [])

abbrev rules : List Rule
rules = excludes ("vendor" ∷ []) ∷ includes ("vendor" ∷ "ours" ∷ []) ∷ []

new_dir_filter-prunes_example :
    (new_dir_filter rules).include ("vendor" ∷ "theirs" ∷ "deep" ∷ []) ≡ false
unfolding new_dir_filter path_include_func judge match_string compile rule_path plus_paths any_leads
new_dir_filter-prunes_example =
    new_dir_filter-prunes "vendor" ("theirs" ∷ []) ("deep" ∷ []) rules refl refl

abbrev tree : Node
tree =
    directory
      (entry "main.go" regular (entry "src" (directory end) (entry "vendor" (directory end) end)))

plan_watch-covers_example : is_covered (plan_watch rules tree) ("src" ∷ []) ≡ true
unfolding Visible skipped_by_watcher new_dir_filter path_include_func judge match_string compile
    rule_path
plan_watch-covers_example =
    plan_watch-covers rules tree ("src" ∷ []) (inr (inl (refl, refl, tt))) refl

plan_watch-IsSound_example : IsSound (new_dir_filter rules) tree (plan_watch rules tree)
plan_watch-IsSound_example =
    plan_watch-IsSound (excludes ("vendor" ∷ [])) (includes ("vendor" ∷ "ours" ∷ []) ∷ []) tree

abbrev started_one : Record
started_one = record {
  worktree = "/work";
  port = pos 61000;
  pid = pos 7;
  started_at = pos 100;
  started_at_milli = pos 0;
  terminating = false;
  uses = 0;
  used_at = pos 0;
}

abbrev empty_tree : Node
empty_tree = directory end

abbrev held : WatchSnapshot
held = record {
  planned = 1;
  partial = ([], record { names = "main.go" ∷ []; files = true }) ∷ [];
  taken = 2;
  server_id = (pos 7, pos 100);
}

abbrev again : Answer
again = record {
  worktree = "/work";
  server_id = (pos 7, pos 100);
  plan = record { roots = [] ∷ []; partial = [] };
  started = 5;
  now = 6;
}

answers-snapshot_example :
    held_for (answers (some (("/work", held) ∷ [])) (again ∷ [])) "/work" ≡ some held
unfolding held_for lookup
answers-snapshot_example =
    answers-snapshot "/work" held (some (("/work", held) ∷ [])) (again ∷ []) refl ((λ e. refl), tt)
      refl

abbrev emptied : RelPath → Option Entries
emptied dir = some end

abbrev no_info : RelPath → String → Option ℕ
no_info dir name = none

watch_changed-seen_example :
    watch_changed (new_dir_filter rules) emptied no_info (some (("/work", held) ∷ [])) started_one
    ≡ some held
unfolding lookup describes server partial_changed relevant_names
watch_changed-seen_example =
    watch_changed-seen (new_dir_filter rules) emptied no_info started_one (("/work", held) ∷ [])
      held [] (record { names = "main.go" ∷ []; files = true }) refl refl refl refl

-- A worktree of which all that there is, is excluded.
abbrev vendored : Node
vendored = directory (entry "vendor" (directory end) end)

abbrev read_vendored : RelPath → Option Entries
read_vendored [] = some (entry "vendor" (directory end) end)
read_vendored (x ∷ []) = some end
read_vendored (x ∷ (y ∷ dir)) = none

abbrev In : Entries → String → Node → Type 0
In end name node = ⊥
In (entry other held es) name node = (node ≡ held) ⊎ In es name node

In-entries : {es : Entries} {name : String} {node : Node} → Has es name node → In es name node
In-entries here = inl refl
In-entries (there has) = inr (In-entries has)

abbrev IsAt : RelPath → Node → Type 0
IsAt [] node = node ≡ vendored
IsAt (x ∷ []) node = node ≡ directory end
IsAt (x ∷ (y ∷ dir)) node = ⊥

same_entries : (a b : Entries) → directory a ≡ directory b → a ≡ b
same_entries a b h = cc

entry-IsAt :
    (rel : RelPath) (es : Entries) (name : String) (node : Node)
    → IsAt rel (directory es)
    → In es name node
    → IsAt (rel ++ name ∷ []) node
entry-IsAt [] es name node at_rel i =
    elim (subst (λ e. In e name node) (same_entries es _ at_rel) i) [
      | inl same ↦ same
      | inr none_left ↦ absurd none_left
    ]
entry-IsAt (x ∷ []) es name node at_rel i =
    absurd (subst (λ e. In e name node) (same_entries es end at_rel) i)
entry-IsAt (x ∷ (y ∷ rel)) es name node at_rel i = absurd at_rel

Stands-IsAt : {dir : RelPath} {node : Node} → Stands vendored dir node → IsAt dir node
Stands-IsAt top = refl
Stands-IsAt (under {rel = rel} {es = es} {name = name} {node = node} s has) =
    entry-IsAt rel es name node (Stands-IsAt s) (In-entries has)

read_at : (dir : RelPath) (es : Entries) → IsAt dir (directory es) → read_vendored dir ≡ some es
read_at [] es h = ap some (sym (same_entries es _ h))
read_at (x ∷ []) es h = ap some (sym (same_entries es end h))
read_at (x ∷ (y ∷ dir)) es h = absurd h

watch_changed-quiet_example :
    watch_changed
      (new_dir_filter rules)
      read_vendored
      no_info
      (remember_watch (some []) "/work" (pos 7, pos 100) (plan_watch rules vendored) 1 2)
      started_one
    ≡ none
unfolding is_current lookup
watch_changed-quiet_example =
    watch_changed-quiet rules vendored read_vendored no_info started_one [] (pos 7, pos 100) 1 2
      (λ dir es s. read_at dir es (Stands-IsAt s)) (λ dir name. refl) refl
