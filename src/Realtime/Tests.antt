-- ===== src/Realtime/Tests.antt =====
-- Runs of the hub on small inputs, and instances of the theorems.
use sblite.Prelude.{
  Text, codes, Bool, some, str_eq, false, ◌≡◌, if◌then◌else◌, refl, none, lookup, insert, [], ◌++◌,
  true, length, ◌+◌, ◌≤◌, arith, ◌==◌, ◌∷◌, ltb, has_prefix, cut, replace_from,
}
use sblite.Realtime.Protocol.{
  Message, Fields, event_join, end, field, obj, text, parse_join_payload, event_broadcast, arr,
  item, done, get_field,
}
use sblite.Realtime.Conn.{
  Validation, handle_message, valid, handle_join, join_checked, join_channel, handle_broadcast,
}
use sblite.Realtime.Hub.{Hub, register_conn, close, send, set_conn, ChannelSub, send_buffer_size}
use sblite.Realtime.Runs.{
  new_hub, Reachable, next, Reachable-IsConsistent, here, receives, connects,
}
use sblite.Realtime.Consistent.Invariant.{IsConsistent, member}
use sblite.Realtime.Consistent.Closed.{close_effect}
use sblite.Realtime.Delivery.{delivered}
use sblite.Realtime.Delivery.Broadcast.{
  broadcast_message, excluded, acks, handle_broadcast_delivers,
}
use sblite.Realtime.Filter.{matches_filter, evaluate_operator, compare_equal}
use sblite.Realtime.Changes.{
  Policies, ChangeEvent, broadcast_change, get_matching_subscription_ids, matches_subscription,
  check_rls_access, check_policies, evaluate_rls_condition, build_auth_context,
}
use sblite.Realtime.Changes.Told.{told_in, told, broadcast_change_delivers, is_told}
use sblite.Rls.{conditions, substitute_auth_functions, join_and}
use sblite.Values.{Conversions}

abbrev picks : Text → Message → Bool
picks id msg = false

-- Every token is good.
abbrev accept : Text → Validation
accept token = valid end

abbrev alice : Text
alice = codes "c1"

abbrev bob : Text
bob = codes "c2"

abbrev room : Text
room = codes "room"

abbrev message : Text → Fields → Message
message event payload = record {
  event = event;
  topic = room;
  payload = some payload;
  ref = codes "1";
  join_ref = codes "2";
}

-- A join with a presence key.
abbrev join_as : Text → Message
join_as key = message event_join (
    field (codes "config")
      (obj (field (codes "presence") (obj (field (codes "key") (text key) end)) end)) end)

abbrev one : Hub
one = register_conn alice (new_hub picks)

abbrev joined_one : Hub
joined_one = handle_message accept (codes "r") alice (join_as (codes "k")) one

abbrev two : Hub
two = register_conn bob joined_one

abbrev joined_two : Hub
joined_two = handle_message accept (codes "r") bob (join_as (codes "k")) two

one-Reachable : Reachable accept (new_hub picks) one
unfolding new_hub str_eq
one-Reachable = next here (connects alice refl)

joined_one-Reachable : Reachable accept (new_hub picks) joined_one
joined_one-Reachable =
    next one-Reachable (
      receives (codes "r") alice (join_as (codes "k"))
        (unfold register_conn str_eq new_hub in refl))

Reachable-IsConsistent_example : IsConsistent joined_one
Reachable-IsConsistent_example = Reachable-IsConsistent accept picks joined_one joined_one-Reachable

joined_one_open : (joined_one.conns alice).closed ≡ false
unfolding handle_message handle_join join_checked join_channel parse_join_payload register_conn
    new_hub send str_eq lookup insert set_conn
joined_one_open = refl

close_effect_example :
    ((t j : Text)
      → member (close alice joined_one) t j
        ≡ (if str_eq alice j then none else member joined_one t j))
    × ((j : Text)
        → (close alice joined_one).connections j
          ≡ (if str_eq alice j then false else joined_one.connections j))
close_effect_example = close_effect alice joined_one joined_one_open Reachable-IsConsistent_example

abbrev alice_sub : ChannelSub
alice_sub = record {
  conn = alice;
  join_ref = codes "2";
  broadcast_config = record { ack = false; self = false };
  presence_config = record { key = codes "k" };
  pg_changes = [];
}

bob_unknown : (joined_one.conns bob).closed ≡ true
unfolding handle_message handle_join join_checked join_channel parse_join_payload register_conn
    new_hub send str_eq lookup insert set_conn
bob_unknown = refl

bob_connected : (two.conns bob).closed ≡ false
unfolding handle_message handle_join join_checked join_channel parse_join_payload register_conn
    new_hub send str_eq lookup insert set_conn
bob_connected = refl

alice_open : (joined_two.conns alice).closed ≡ false
unfolding handle_message handle_join join_checked join_channel parse_join_payload register_conn
    new_hub send str_eq lookup insert set_conn
alice_open = refl

alice_joined : lookup room (joined_two.conns alice).channels ≡ some alice_sub
unfolding handle_message handle_join join_checked join_channel parse_join_payload register_conn
    new_hub send str_eq lookup insert set_conn
alice_joined = refl

bob_open : (joined_two.conns bob).closed ≡ false
unfolding handle_message handle_join join_checked join_channel parse_join_payload register_conn
    new_hub send str_eq lookup insert set_conn
bob_open = refl

bob_has_room : length (joined_two.conns bob).send + 2 ≤ send_buffer_size
unfolding handle_message handle_join join_checked join_channel parse_join_payload register_conn
    new_hub send str_eq lookup insert set_conn
bob_has_room = omega arith

two-Reachable : Reachable accept (new_hub picks) two
two-Reachable = next joined_one-Reachable (connects bob bob_unknown)

joined_two-Reachable : Reachable accept (new_hub picks) joined_two
joined_two-Reachable =
    next two-Reachable (receives (codes "r") bob (join_as (codes "k")) bob_connected)

abbrev hello : Message
hello =
    message event_broadcast
      (field (codes "event") (text (codes "hi")) (field (codes "payload") (obj end) end))

handle_broadcast_delivers_example :
    ((handle_broadcast alice hello joined_two).conns bob).send
    ≡ (joined_two.conns bob).send
      ++ (delivered
            (broadcast_message hello)
            (excluded alice alice_sub)
            bob
            (member joined_two room bob)
          ++ acks alice bob hello alice_sub)
handle_broadcast_delivers_example =
    handle_broadcast_delivers alice bob hello alice_sub joined_two
      (Reachable-IsConsistent accept picks joined_two joined_two-Reachable) alice_open alice_joined
      bob_open bob_has_room

-- A join that asks for the changes of some rows of a table.
abbrev join_changes : Message
join_changes =
    let sub : Fields = field (codes "event") (text (codes "*")) (
      field (codes "schema") (text (codes "public")) (
        field (codes "table") (text (codes "todos"))
          (field (codes "filter") (text (codes "owner=eq.ann")) end))) in
    message event_join (
      field (codes "config")
        (obj (field (codes "postgres_changes") (arr (item (obj sub) done)) end)) end)

abbrev listening : Hub
listening = handle_message accept (codes "r") alice join_changes one

-- Conversions that know no numbers.
abbrev no_numbers : Conversions
no_numbers = record {
  parse_float = λ s. none;
  parse_int = λ s. none;
  atoi = λ s. none;
  float_of_int = λ n. n;
  float_of_int64 = λ n. n;
  float_eq = λ a b. a == b;
  float_lt = λ a b. ltb a b;
  sprint = λ v. [];
  trim_space = λ s. s;
}

-- One policy, which every row satisfies.
abbrev one_policy : Policies
one_policy = record {
  has_service = true;
  is_rls_enabled = λ table. some true;
  policies_for = λ table.
      some (record { command = codes "SELECT"; using_expr = codes "1"; check_expr = [] } ∷ []);
  patterns = record {
    replace_jwt = λ value expr. expr;
    substitute_storage_functions = λ expr. expr;
    sprint = λ v. [];
  };
  has_db = true;
  finds_row = λ condition row. true;
}

abbrev change : ChangeEvent
change = record {
  schema = codes "public";
  table = codes "todos";
  commit_timestamp = [];
  event_type = codes "INSERT";
  new = some (field (codes "owner") (text (codes "ann")) end);
  old = none;
}

listening-Reachable : Reachable accept (new_hub picks) listening
listening-Reachable =
    next one-Reachable
      (receives (codes "r") alice join_changes (unfold register_conn str_eq new_hub in refl))

listening_open : (listening.conns alice).closed ≡ false
unfolding handle_message handle_join join_checked join_channel parse_join_payload register_conn
    new_hub send str_eq lookup insert set_conn
listening_open = refl

listening_told :
    length
      (told_in one_policy no_numbers change alice (listening.conns alice).claims listening.channels)
    ≡ 1
unfolding handle_message handle_join join_checked join_channel parse_join_payload register_conn
    new_hub send str_eq lookup insert set_conn told_in told is_told get_matching_subscription_ids
    matches_subscription matches_filter cut evaluate_operator compare_equal get_field
    check_rls_access check_policies evaluate_rls_condition build_auth_context conditions
    substitute_auth_functions replace_from has_prefix join_and
listening_told = refl

listening_has_room :
    length (listening.conns alice).send
      + length (
          told_in one_policy no_numbers change alice
            (listening.conns alice).claims
            listening.channels)
    ≤ send_buffer_size
unfolding handle_message handle_join join_checked join_channel parse_join_payload register_conn
    new_hub send str_eq lookup insert set_conn
listening_has_room = rw listening_told (omega arith)

broadcast_change_delivers_example :
    ((broadcast_change one_policy no_numbers change listening).conns alice).send
    ≡ (listening.conns alice).send
      ++ told_in one_policy no_numbers change alice
          (listening.conns alice).claims
          listening.channels
broadcast_change_delivers_example =
    broadcast_change_delivers one_policy no_numbers change alice listening
      (Reachable-IsConsistent accept picks listening listening-Reachable) listening_open
      listening_has_room
