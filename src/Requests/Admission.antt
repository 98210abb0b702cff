-- ===== src/Requests/Admission.antt =====
-- requests.go: a call comes under the tracker, gets its worktree and is placed on its lane.
use gopls_mcp_manager.Prelude.{
  nat_eq, string_eq, option_eq, pair_eq, ℕ, ◌+◌, String, Bool, true, false, not, ◌&&◌, ◌||◌, Option,
  none, some, List, [], ◌∷◌, length, max, lookup, insert, ◌==◌, is_some, is_positive, reached,
  if◌then◌else◌,
}
use gopls_mcp_manager.Requests.State.{
  RequestId, Token, CancelFunc, Fault, already_outstanding, session_outstanding, context_canceled,
  retained_lanes, lane_outstanding, Owed, Delivery, Router,
}
use gopls_mcp_manager.Requests.Credits.{count, bump, rejected_locked, owner_locked}

-- `admit`: the token minted, nil for a notification, or the error.
unfoldable pub admit : Router → RequestId → CancelFunc → Router × Token × Option Fault
admit r none cancel = (r, none, none)
admit r (some i) cancel =
    if is_some (lookup (some i) r.awaiting_upstream)
    then (rejected_locked r "duplicate_id", none, some (already_outstanding (some i)))
    else if reached (length r.awaiting_upstream) r.limits.session
    then (rejected_locked r "session_outstanding", none, some session_outstanding)
    else (
      record r {
        awaiting_upstream =
            insert (some i)
              (record {
                conn = none;
                worktree = "";
                cancel = cancel;
                placed = none;
                state = some r.next_token;
              })
              r.awaiting_upstream;
        next_token = r.next_token + 1;
        usage = record r.usage {
          admitted = r.usage.admitted + 1;
          peak = max r.usage.peak (length r.awaiting_upstream + 1);
        };
      },
      some r.next_token,
      none,
    )

contains : List ℕ → ℕ → Bool
contains [] c = false
contains (x ∷ xs) c = x == c || contains xs c

was_called : List ℕ → CancelFunc → Bool
unfolding contains
was_called called none = false
was_called called (some c) = contains called c

-- `call.ctx.Err() != nil`: its deadline is over (`late`), the session's context is done, or its
-- cancel function was called.
unfoldable pub ctx_err : Router → Delivery → Bool → Bool
unfolding was_called
ctx_err r call late = late || r.done || was_called r.cancelled call.cancel

-- Is the record that is owed not the admission of `call`?
abbrev pub is_stale : Option Owed → Token → Bool
is_stale none state = true
is_stale (some owner) state = not (owner.state == state)

unfoldable pub bind_owned :
    Router → RequestId → String → CancelFunc → Option Owed → Router × Option Fault
bind_owned r none worktree cancel owned = (r, none)
bind_owned r (some i) worktree cancel none = (r, some context_canceled)
bind_owned r (some i) worktree cancel (some owner) =
    if reached (count worktree r.per_worktree) r.limits.per_lane
    then (rejected_locked r "lane_outstanding", some (lane_outstanding worktree))
    else (
      record r {
        awaiting_upstream =
            insert (some i) (record owner { worktree = worktree; cancel = cancel })
              r.awaiting_upstream;
        per_worktree = bump worktree r.per_worktree;
      },
      none,
    )

-- The two refusals of `bindWorktree` before it looks at the lane's own limit.
unfoldable pub is_withdrawn : Router → Delivery → Bool → Bool
is_withdrawn r call late =
    ctx_err r call late
    || (is_some call.req.id && is_stale (lookup call.req.id r.awaiting_upstream) call.state)

unfoldable pub is_lane_refused : Router → String → Bool
is_lane_refused r worktree =
    not (is_some (lookup worktree r.lanes))
    && (is_positive r.limits.lanes && reached (length r.lanes) r.limits.lanes)

-- `bindWorktree`; the second component is the error.
unfoldable pub bind_worktree :
    Router → Delivery → String → CancelFunc → Bool → Router × Option Fault
bind_worktree r call worktree cancel late =
    if is_withdrawn r call late
    then (r, some context_canceled)
    else if is_lane_refused r worktree
    then (rejected_locked r "lanes", some retained_lanes)
    else bind_owned r call.req.id worktree cancel (lookup call.req.id r.awaiting_upstream)

unfoldable pub place_owned : Router → RequestId → CancelFunc → Option Owed → Router × Token × Bool
place_owned r id cancel none = (r, none, false)
place_owned r id cancel (some owner) = (
  record r {
    awaiting_upstream =
        insert id (record owner { conn = none; cancel = cancel; placed = none })
          r.awaiting_upstream;
  },
  owner.state,
  true,
)

-- `placeDelivery`: the token of the record, and whether the delivery still owns it.
unfoldable pub place_delivery : Router → RequestId → Token → CancelFunc → Router × Token × Bool
unfolding place_owned
place_delivery r none expected cancel = (r, none, true)
place_delivery r (some i) expected cancel =
    place_owned r (some i) cancel (owner_locked r (some i) expected)
