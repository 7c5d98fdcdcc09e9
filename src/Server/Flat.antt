-- ===== src/Server/Flat.antt =====
-- internal/server/fusionjudge.go: what the panel is sent has no tools in it.
use token_route.Base.{ℕ, ◌+◌, Bool, true, false, ◌&&◌, not, ◌≡◌, refl, arith, if◌then◌else◌}
use token_route.Base.Text.{Text, codes, text_eq}
use token_route.Base.Json.{
  Json, null, bool, number, text, array, object, Items, no_items, item, Fields, member, text_member,
}
use token_route.Server.Panel.{
  is_tool_role, calls_tools, assistant, flatten_calls, flatten_message, flatten_tool_history,
}

-- A message that is no turn of a tool and, from an assistant, calls none.
abbrev pub is_plain : Json → Bool
is_plain (object fs) =
    let role = text_member (codes "role") fs in
    not (is_tool_role role) && not (text_eq role (codes "assistant") && calls_tools fs)
is_plain v = true

abbrev pub all_plain : Items → Bool
all_plain no_items = true
all_plain (item m ms) = is_plain m && all_plain ms

abbrev pub count_items : Items → ℕ
count_items no_items = 0
count_items (item m ms) = count_items ms + 1

assistant_plain : (s : Text) → is_plain (assistant s) ≡ true
unfolding text_member member
assistant_plain s = refl

flatten_calls_plain : (fs : Fields) → is_plain (flatten_calls fs) ≡ true
unfolding flatten_calls
flatten_calls_plain fs = assistant_plain _

choose_plain :
    (tool calls : Bool) (result prose raw : Json)
    → is_plain result ≡ true
    → is_plain prose ≡ true
    → ((not tool && not calls) ≡ true → is_plain raw ≡ true)
    → is_plain (if tool then result else (if calls then prose else raw)) ≡ true
choose_plain true calls result prose raw h k l = h
choose_plain false true result prose raw h k l = k
choose_plain false false result prose raw h k l = l refl

flatten_message_plain : (m : Json) → is_plain (flatten_message m) ≡ true
unfolding flatten_message
flatten_message_plain (object fs) =
    let role = text_member (codes "role") fs in
    choose_plain (is_tool_role role) (text_eq role (codes "assistant") && calls_tools fs) _
      (flatten_calls fs) (object fs) (assistant_plain _) (flatten_calls_plain fs) (λ h. h)
flatten_message_plain null = refl
flatten_message_plain (bool b) = refl
flatten_message_plain (number n) = refl
flatten_message_plain (text s) = refl
flatten_message_plain (array vs) = refl

flatten_message_kept : (m : Json) → is_plain m ≡ true → flatten_message m ≡ m
unfolding flatten_message
flatten_message_kept (object fs) h = ground arith
flatten_message_kept null h = refl
flatten_message_kept (bool b) h = refl
flatten_message_kept (number n) h = refl
flatten_message_kept (text s) h = refl
flatten_message_kept (array vs) h = refl

-- The flattened history has as many turns as the original, none of a tool or a function and none of
-- an assistant that calls tools; and flattening it again changes nothing.
pub flatten_tool_history_plain :
    (ms : Items)
    → (all_plain (flatten_tool_history ms) ≡ true)
      × (count_items (flatten_tool_history ms) ≡ count_items ms)
      × (flatten_tool_history (flatten_tool_history ms) ≡ flatten_tool_history ms)
unfolding flatten_tool_history
flatten_tool_history_plain no_items = (refl, refl, refl)
flatten_tool_history_plain (item m ms) =
    let (plain, counted, stable) = flatten_tool_history_plain ms in
    let here = flatten_message_plain m in
    (ground arith, ground arith, rw (stable, flatten_message_kept (flatten_message m) here) refl)
