-- ===== src/Server/Panel.antt =====
-- internal/server/fusionjudge.go: the bodies for the panel and for the judge, on decoded JSON.
use token_route.Base.{
  ℕ, ◌+◌, Bool, false, ◌&&◌, ◌||◌, Option, none, some, List, [], ◌∷◌, ◌++◌, ◌==◌, if◌then◌else◌,
}
use token_route.Base.Int.{pos}
use token_route.Base.Text.{Text, codes, text_eq, format_int}
use token_route.Base.Time.{Instant, before}
use token_route.Base.Sort.{sort_by}
use token_route.Base.Json.{
  Json, bool, text, array, object, Items, no_items, item, Fields, no_fields, field, member,
  text_member, delete_field, set_field,
}
use token_route.RetryPolicy.Defs.{is_blank}
use token_route.Prices.{is_some}

-- The texts of the blocks of a content.
unfoldable pub blocks_text : Items → Text
unfolding text_member
blocks_text no_items = []
blocks_text (item (object fs) bs) = text_member (codes "text") fs ++ blocks_text bs
blocks_text (item _ bs) = blocks_text bs

abbrev pub value_text : Option Json → Text
value_text (some (text s)) = s
value_text (some (array bs)) = blocks_text bs
value_text _ = []

-- `contentString` of `m["content"]`
unfoldable pub content_string : Fields → Text
unfolding member
content_string fs = value_text (member (codes "content") fs)

-- The name in a function call, when it is an object with one.
abbrev pub name_in : Option Json → List Text
name_in (some (object fn)) =
    let name = text_member (codes "name") fn in if is_blank name then [] else name ∷ []
name_in _ = []

-- `toolCallNames`
unfoldable pub tool_call_names : Items → List Text
unfolding member
tool_call_names no_items = []
tool_call_names (item (object call) calls) =
    name_in (member (codes "function") call) ++ tool_call_names calls
tool_call_names (item _ calls) = tool_call_names calls

abbrev pub array_member : Option Json → Option Items
array_member (some (array calls)) = some calls
array_member _ = none

abbrev pub or_none : Option Items → Items
or_none none = no_items
or_none (some calls) = calls

-- `strings.Join(names, ", ")`
unfoldable pub join_names : List Text → Text
join_names [] = []
join_names (name ∷ []) = name
join_names (name ∷ other ∷ names) = name ++ (codes ", " ++ join_names (other ∷ names))

abbrev pub assistant : Text → Json
assistant s =
    object
      (field (codes "role") (text (codes "assistant")) (field (codes "content") (text s) no_fields))

abbrev pub called : List Text → Text → Text
called [] s = s
called (name ∷ names) s =
    let prefix = codes "[Called tools: " ++ (join_names (name ∷ names) ++ codes "]") in
    if is_blank s then prefix else prefix ++ (10 ∷ s)

-- An assistant's turn that called tools, as prose.
unfoldable pub flatten_calls : Fields → Json
unfolding content_string tool_call_names member join_names
flatten_calls fs =
    let calls = or_none (array_member (member (codes "tool_calls") fs)) in
    let names = tool_call_names calls ++ name_in (member (codes "function_call") fs) in
    assistant (called names (content_string fs))

abbrev pub calls_tools : Fields → Bool
calls_tools fs =
    is_some (array_member (member (codes "tool_calls") fs))
    || is_some (member (codes "function_call") fs)

abbrev pub is_tool_role : Text → Bool
is_tool_role role = text_eq role (codes "tool") || text_eq role (codes "function")

-- The body of the loop of `flattenToolHistory`.
unfoldable pub flatten_message : Json → Json
unfolding flatten_calls content_string
flatten_message (object fs) =
    let role = text_member (codes "role") fs in
    let result = assistant (codes "[Tool result: " ++ (content_string fs ++ codes "]")) in
    if is_tool_role role
    then result
    else (if text_eq role (codes "assistant") && calls_tools fs
        then flatten_calls fs
        else object fs)
flatten_message v = v

-- `flattenToolHistory`
unfoldable pub flatten_tool_history : Items → Items
unfolding flatten_message
flatten_tool_history no_items = no_items
flatten_tool_history (item m ms) = item (flatten_message m) (flatten_tool_history ms)

abbrev pub set_messages : Option Items → Fields → Fields
set_messages none fs = fs
set_messages (some ms) fs = set_field (codes "messages") (array (flatten_tool_history ms)) fs

-- `stripPanelBody`, on a body that is an object.
unfoldable pub strip_panel_body : Fields → Fields
unfolding flatten_tool_history
strip_panel_body fs₀ =
    let fs₁ = delete_field (codes "tools") fs₀ in
    let fs₂ = delete_field (codes "tool_choice") fs₁ in
    let fs₃ = delete_field (codes "functions") fs₂ in
    let fs₄ = delete_field (codes "function_call") fs₃ in
    let fs₅ = delete_field (codes "stream_options") fs₄ in
    let fs₆ = set_field (codes "stream") (bool false) fs₅ in
    set_messages (array_member (member (codes "messages") fs₆)) fs₆

-- `setModel`
unfoldable pub set_model : Text → Fields → Fields
set_model model fs = set_field (codes "model") (text model) fs

-- `panelAnswer`, for the judge.
pub record PanelAnswer : Type 0 where
  pub answer : Text
  pub arrived : Instant

unfoldable pub sources : ℕ → List PanelAnswer → Text
sources i [] = []
sources i (a ∷ answers) =
    codes "Source "
    ++ (format_int (pos (i + 1))
        ++ (codes ":" ++ (10 ∷ (a.answer ++ (10 ∷ 10 ∷ sources (i + 1) answers)))))

abbrev drop_newline : ℕ → Text → Text
drop_newline c [] = if c == 10 then [] else c ∷ []
drop_newline c (d ∷ s) = c ∷ d ∷ s

-- `strings.TrimRight(s, "\n")`
unfoldable pub trim_newlines : Text → Text
trim_newlines [] = []
trim_newlines (c ∷ s) = drop_newline c (trim_newlines s)

unfoldable pub append_item : Items → Json → Items
append_item no_items v = item v no_items
append_item (item w vs) v = item w (append_item vs v)

-- `judgeRequestBody`, on a body that is an object; `prompt` is the text of `judgePrompt`.
unfoldable pub judge_request_body : Text → List PanelAnswer → Text → Bool → Fields → Fields
unfolding sources append_item trim_newlines
judge_request_body prompt answers judge_model stream fs₀ =
    let ordered = sort_by (λ a b. before a.arrived b.arrived) answers in
    let content = trim_newlines (prompt ++ sources 0 ordered) in
    let turn = object (
      field (codes "role") (text (codes "user"))
        (field (codes "content") (text content) no_fields)) in
    let old = or_none (array_member (member (codes "messages") fs₀)) in
    let fs₁ = set_field (codes "messages") (array (append_item old turn)) fs₀ in
    let fs₂ = set_field (codes "model") (text judge_model) fs₁ in
    let fs₃ = set_field (codes "stream") (bool stream) fs₂ in
    if stream then fs₃ else delete_field (codes "stream_options") fs₃
