-- ===== src/Realtime/Changes.antt =====
-- Row changes and who is told of them (internal/realtime/hub.go from `broadcastChange` on). What
-- `checkRLSAccess` asks of the policy service and of the database is the record `Policies`.
mod Tests
pub mod Told
mod Access
use sblite.Prelude.{
  ℕ, Text, Dict, codes, str_eq, Option, none, some, List, [], ◌∷◌, ◌++◌, Bool, true, false, not,
  ◌&&◌, ◌||◌, if◌then◌else◌,
}
use sblite.Realtime.Protocol.{
  Any, Items, Fields, Message, PostgresChangeSub, nil, int, text, arr, obj, end, field, item, done,
  as_text, get_field,
}
use sblite.Rls.{
  Policy, AuthContext, conditions, Patterns, join_and, substitute_auth_functions, is_empty_list,
}
use sblite.Realtime.Filter.{matches_filter}
use sblite.Realtime.Hub.{ChannelSub, Channel, Hub, send}
use sblite.Values.{Conversions}

-- A row is `none` for the nil map. `Errors`, which `broadcastChange` leaves empty and no message
-- shows, is left out.
pub record ChangeEvent : Type 0 where
  pub schema : Text
  pub table : Text
  pub commit_timestamp : Text
  pub event_type : Text
  pub new : Option Fields
  pub old : Option Fields

unfoldable pub row_value : Option Fields → Any
row_value none = nil
row_value (some row) = obj row

unfoldable pub ids_to_items : List ℕ → Items
ids_to_items [] = done
ids_to_items (i ∷ ids) = item (int i) (ids_to_items ids)

unfoldable pub change_data : ChangeEvent → Fields
unfolding row_value
change_data event = field (codes "schema") (text event.schema) (
    field (codes "table") (text event.table) (
      field (codes "commit_timestamp") (text event.commit_timestamp) (
        field (codes "type") (text event.event_type) (
          field (codes "columns") (arr done) (
            field (codes "record") (row_value event.new) (
              field (codes "old_record") (row_value event.old)
                (field (codes "errors") nil end)))))))

unfoldable pub new_postgres_change_message : Text → Text → List ℕ → ChangeEvent → Message
unfolding ids_to_items change_data
new_postgres_change_message topic join_ref ids event = record {
  event = codes "postgres_changes";
  topic = topic;
  payload = some (
      field (codes "ids") (arr (ids_to_items ids))
        (field (codes "data") (obj (change_data event)) end));
  ref = [];
  join_ref = join_ref;
}

-- A pattern of a subscription: "*", or the very word.
abbrev pub fits : Text → Text → Bool
fits pattern word = str_eq pattern (codes "*") || str_eq pattern word

-- The answers of `IsRLSEnabled`, `GetPoliciesForTable` and the database, with `none` for an error. A
-- nil `rlsService` is `has_service = false`, and `finds_row` says whether the query that
-- `evaluateRLSCondition` builds for a condition and a row that is not empty succeeds with a row.
pub record Policies : Type 0 where
  pub has_service : Bool
  pub is_rls_enabled : Text → Option Bool
  pub policies_for : Text → Option (List Policy)
  pub patterns : Patterns
  pub has_db : Bool
  pub finds_row : Text → Fields → Bool

unfoldable pub text_claim : Text → Fields → Text
unfolding as_text get_field
text_claim k claims = elim (as_text (get_field k claims)) [ none ↦ [] | some s ↦ s ]

unfoldable pub build_auth_context : Option Fields → AuthContext
unfolding text_claim
build_auth_context none = record {
  user_id = [];
  email = [];
  role = [];
  claims = end;
  bypass_rls = false;
}
build_auth_context (some claims) =
    let role = text_claim (codes "role") claims in
    record {
      user_id = text_claim (codes "sub") claims;
      email = text_claim (codes "email") claims;
      role = role;
      claims = claims;
      bypass_rls = str_eq role (codes "service_role");
    }

unfoldable pub has_columns : Option Fields → Bool
has_columns none = false
has_columns (some end) = false
has_columns (some (field _ _ _)) = true

module _ (conv : Conversions) where
  unfoldable pub matches_subscription : PostgresChangeSub → ChangeEvent → Bool
  unfolding matches_filter
  matches_subscription sub event =
      let filtered = matches_filter conv sub.filter event.new event.old in
      if fits sub.event event.event_type
        && fits sub.schema event.schema
        && fits sub.table event.table
      then if str_eq sub.filter [] then true else filtered
      else false

  unfoldable pub get_matching_subscription_ids : List PostgresChangeSub → ChangeEvent → List ℕ
  unfolding matches_subscription
  get_matching_subscription_ids [] event = []
  get_matching_subscription_ids (sub ∷ subs) event =
      let ids = get_matching_subscription_ids subs event in
      if matches_subscription sub event then sub.id ∷ ids else ids

-- `rowToCheck`
abbrev pub row_to_check : ChangeEvent → Option Fields
row_to_check event = if str_eq event.event_type (codes "DELETE") then event.old else event.new

module _ (rls : Policies) where
  unfoldable pub evaluate_rls_condition : Text → Option Fields → Bool
  unfolding has_columns
  evaluate_rls_condition condition none = false
  evaluate_rls_condition condition (some row) =
      rls.has_db && has_columns (some row) && rls.finds_row condition row

  -- From the policies on.
  unfoldable pub check_policies : List Policy → Option Fields → Option Fields → Bool
  unfolding evaluate_rls_condition build_auth_context conditions join_and
  check_policies policies row claims =
      let ctx = build_auth_context claims in
      let cs =
        conditions (λ p. p.using_expr) (substitute_auth_functions rls.patterns (some ctx))
          (codes "SELECT") policies in
      if is_empty_list policies || ctx.bypass_rls || is_empty_list cs
      then true
      else evaluate_rls_condition (join_and cs) row

  unfoldable pub check_rls_access : Text → Option Fields → Option Fields → Bool
  unfolding check_policies
  check_rls_access table row claims =
      if not rls.has_service then true else elim (rls.is_rls_enabled table) [
        | none ↦ false
        | some false ↦ true
        | some true ↦ elim (rls.policies_for table) [
          | none ↦ false
          | some policies ↦ check_policies policies row claims
        ]
      ]

  module _ (conv : Conversions) where
    -- The body of the loops of `broadcastChange`.
    unfoldable pub notify : Text → ChangeEvent → ChannelSub → Hub → Hub
    unfolding get_matching_subscription_ids check_rls_access new_postgres_change_message
    notify topic event sub h =
        let ids = get_matching_subscription_ids conv sub.pg_changes event in
        let msg = new_postgres_change_message topic sub.join_ref ids event in
        if not (is_empty_list ids)
          && check_rls_access event.table (row_to_check event) (h.conns sub.conn).claims
        then send sub.conn msg h
        else h

    unfoldable pub notify_subscribers : Text → ChangeEvent → Dict ChannelSub → Hub → Hub
    unfolding notify
    notify_subscribers topic event [] h = h
    notify_subscribers topic event ((_, sub) ∷ subs) h =
        notify_subscribers topic event subs (notify topic event sub h)

    unfoldable pub notify_channels : ChangeEvent → Dict Channel → Hub → Hub
    unfolding notify_subscribers
    notify_channels event [] h = h
    notify_channels event ((_, ch) ∷ chs) h =
        notify_channels event chs (notify_subscribers ch.topic event ch.subscribers h)

    -- `broadcastChange`, with the event that it builds.
    unfoldable pub broadcast_change : ChangeEvent → Hub → Hub
    unfolding notify_channels
    broadcast_change event h = notify_channels event h.channels h
