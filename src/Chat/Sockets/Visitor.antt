-- ===== src/Chat/Sockets/Visitor.antt =====
-- apps/chat/consumers/visitor.py: the customer's socket.
use azm_crm.Prelude.{
  ℕ, String, Option, none, some, Bool, true, false, List, [], ◌∷◌, if◌then◌else◌, map,
}
use text.Mathlib.Text.{◌==◌ as str_eq}
use azm_crm.Chat.Model.{Conversation, is_open, visitor_types, public_group, ended_by_visitor}
use azm_crm.Chat.Redis.Keys.{visitor}
use azm_crm.Chat.Liveness.{mark_seen}
use azm_crm.Chat.Messaging.{visitor_message, broadcast_typing, history_for_visitor}
use azm_crm.Chat.Lifecycle.{finish}
use azm_crm.Chat.Tokens.{Signer, read, matches}
use azm_crm.Chat.World.{World, M, ◌>>=◌, ◌>>◌, pure, gets, on_redis, find_conversation}
use azm_crm.Chat.Sockets.Wire.{Json, null, str, Fields, Wire, parse, get, is_text, body_text}
use azm_crm.Chat.Sockets.Limiter.{Limiter, fresh, allow}
use azm_crm.Chat.Sockets.{
  Out, html, event, state_is, throttled, Line, group_add, group_discard, send, send_all,
}

pub record Visitor : Type 0 where
  pub conversation : Conversation
  pub limiter : Limiter
  pub line : Line

-- What `parse_qs` makes of a query string: for each name its values.
abbrev pub Query : Type 0
Query = List (String × List String)

abbrev first_or : String → List String → String
first_or d [] = d
first_or d (v ∷ vs) = v

-- `(query.get(name) or [""])[0]`
unfoldable pub value_of : String → Query → String
value_of name [] = ""
value_of name ((k, vs) ∷ q) =
    let rest = value_of name q in if str_eq k name then first_or "" vs else rest

abbrev pub admit : Signer → String → Option Conversation → Option Conversation
admit k token none = none
admit k token (some c) =
    if is_open c then (if matches k token c.visitor_token_hash then some c else none) else none

abbrev pub authorize_named : Signer → String → Option ℕ → World → Option Conversation
authorize_named k token none w = none
authorize_named k token (some pk) w = admit k token (find_conversation pk w.conversations)

-- `_authorize`
unfoldable pub authorize : Signer → String → World → Option Conversation
authorize k token w = authorize_named k token (read k w.settings.token_max_age w.now token) w

-- `_still_here`
abbrev pub still_here : ℕ → M Bool
still_here conversation = on_redis (λ s now. mark_seen s now conversation visitor)

abbrev pub opened : ℕ → ℕ → Conversation → List Out → Visitor
opened second at c history = record {
  conversation = c;
  limiter = fresh second 10 2 at;
  line = send_all history (
      send (event (state_is c.state))
        (group_add (public_group c.pk) (record { groups = []; out = [] })));
}

abbrev pub open_socket : ℕ → ℕ → Option Conversation → M (Option Visitor)
open_socket second at none = pure none
open_socket second at (some c) = do
  still_here c.pk
  history ← gets (history_for_visitor c)
  pure (some (opened second at c (map html history)))

-- `none` stands for a connection that was closed.
unfoldable pub connect : Signer → Query → ℕ → ℕ → M (Option Visitor)
unfolding value_of authorize
connect k query second at = do
  found ← gets (authorize k (value_of "token" query))
  open_socket second at found

unfoldable pub disconnect : Visitor → Visitor
disconnect v = record v { line = group_discard (public_group v.conversation.pk) v.line }

-- `_record`
unfoldable pub record_text : Wire → Visitor → Json → M Visitor
record_text wire v text = do
  body ← body_text wire text
  result ← visitor_message v.conversation body
  pure (record v { conversation = result.1 })

-- `_typing`
abbrev pub typing : Visitor → M Visitor
typing v = do broadcast_typing v.conversation visitor_types; pure v

-- `_close_conversation`
abbrev pub close_conversation : Visitor → M Visitor
close_conversation v = do
  c ← finish v.conversation ended_by_visitor none false
  pure (record v { conversation = c })

unfoldable pub handle : Wire → Visitor → Fields → M Visitor
unfolding record_text
handle wire v payload =
    let kind = get "type" null payload in
    if is_text "message" kind
    then record_text wire v (get "text" (str "") payload)
    else if is_text "typing" kind
    then typing v
    else if is_text "close" kind
    then close_conversation v
    else pure v

abbrev pub handle_if : Wire → Fields → Visitor → Bool × Limiter → M Visitor
handle_if wire payload v (false, l) =
    pure (record v { limiter = l; line = send (event throttled) v.line })
handle_if wire payload v (true, l) = handle wire (record v { limiter = l }) payload

unfoldable pub receive : Wire → ℕ → Option String → Visitor → M Visitor
unfolding handle
receive wire at frame v = do
  still_here v.conversation.pk
  handle_if wire (parse wire frame) v (allow at v.limiter)
