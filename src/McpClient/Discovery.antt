-- ===== src/McpClient/Discovery.antt =====
-- The tools that the client discovers.
use groovy_agent.Base.{
  member, IsUnique, none-IsUnique, IsUnique-append, AreSeen, AreSeen-append, ◌≡◌, refl, ap, sym,
  ◌∙◌, ℕ, zero, suc, ◌+◌, ◌≤◌, Bool, true, false, Bytes, List, [], ◌∷◌, ◌++◌, Option, none, some,
  All, All-append, Result, ok, err, Bool-cases, inl, inr, ok-injective, arith, codes,
}
use groovy_agent.Strings.{is_empty}
use groovy_agent.McpProto.{ToolDefinition, ListToolsResult, Wire}
use groovy_agent.McpClient.{
  CallError, Client, reads_schema, add_page, with_page, with_answer, list_pages, list_tools,
  max_pages, call, write, write_line, awaiting,
}

abbrev name_of : ToolDefinition → Bytes
name_of tool = tool.name

-- A tool has a name, and a schema that is not empty and that json.Unmarshal reads into a map: a JSON
-- object or null.
pub record IsComplete (wire : Wire) (tool : ToolDefinition) : Type 0 where
  pub named : is_empty tool.name ≡ false
  pub has_schema : is_empty tool.input_schema ≡ false
  pub schema_read : reads_schema (wire.read_schema tool.input_schema) ≡ true

-- What the loop keeps: the names seen are those of the tools.
record IsKept (wire : Wire) (seen : List Bytes) (tools : List ToolDefinition) : Type 0 where
  unique : IsUnique name_of tools
  complete : All (IsComplete wire) tools
  all_seen : AreSeen name_of seen tools

module _ (wire : Wire) (accepts : Bytes → Bool) where
  one_more :
      (seen : List Bytes) (tools : List ToolDefinition) (tool : ToolDefinition)
      → IsKept wire seen tools
      → IsComplete wire tool
      → member seen tool.name ≡ false
      → IsKept wire (tool.name ∷ seen) (tools ++ (tool ∷ []))
  one_more seen tools tool kept complete new = record {
    unique = IsUnique-append name_of seen tools tool kept.unique kept.all_seen new;
    complete = All-append (IsComplete wire) tools (tool ∷ []) (complete, tt) kept.complete;
    all_seen = AreSeen-append name_of seen tools tool kept.all_seen;
  }

  add_page-IsKept :
      (page : List ToolDefinition) (seen after : List Bytes) (tools all : List ToolDefinition)
      → IsKept wire seen tools
      → add_page wire accepts page seen tools ≡ ok (after, all)
      → IsKept wire after all
  unfolding add_page
  add_page-IsKept [] seen after tools all kept h =
      let e = ok-injective h in rw (sym (ap (λ r. r.0) e), sym (ap (λ r. r.1) e)) kept
  add_page-IsKept (tool ∷ page) seen after tools all kept h =
      elim (Bool-cases (is_empty tool.name)) [
        | inl a ↦ cc (rw a at h)
        | inr a ↦ elim (Bool-cases (is_empty tool.input_schema)) [
          | inl b ↦ cc (rw (a, b) at h)
          | inr b ↦ elim (Bool-cases (reads_schema (wire.read_schema tool.input_schema))) [
            | inr d ↦ cc (rw (a, b, d) at h)
            | inl d ↦ elim (Bool-cases (member seen tool.name)) [
              | inl f ↦ cc (rw (a, b, d, f) at h)
              | inr f ↦
                  add_page-IsKept page (tool.name ∷ seen) after (tools ++ (tool ∷ [])) all
                    (one_more seen tools tool kept
                      (record { named = a; has_schema = b; schema_read = d }) f)
                    (rw (a, b, d, f) at h)
            ]
          ]
        ]
      ]

  abbrev Discovered : Type 0
  Discovered = Result CallError (List ToolDefinition) × Client

  -- A result, where there is one, is what the loop keeps.
  IsGood : Result CallError (List ToolDefinition) → Type 0
  IsGood (err e) = Unit
  IsGood (ok tools) = IsUnique name_of tools × All (IsComplete wire) tools

  with_page-IsGood :
      (next : Bytes → List Bytes → List ToolDefinition → Client → Discovered) (cursor : Bytes)
      (c : Client) (r : Result CallError (List Bytes × List ToolDefinition))
      → ((seen : List Bytes) (tools : List ToolDefinition)
          → r ≡ ok (seen, tools)
          → IsKept wire seen tools)
      → ((seen : List Bytes) (tools : List ToolDefinition)
          → IsKept wire seen tools
          → IsGood (next cursor seen tools c).0)
      → IsGood (with_page next cursor c r).0
  unfolding with_page IsGood
  with_page-IsGood next cursor c (err e) kept later = tt
  with_page-IsGood next cursor c (ok (seen, tools)) kept later =
      let k = kept seen tools refl in
      elim (Bool-cases (is_empty cursor)) [
        | inl e ↦ rw e (k.unique, k.complete)
        | inr e ↦ rw e (later seen tools k)
      ]

  with_answer-IsGood :
      (next : Bytes → List Bytes → List ToolDefinition → Client → Discovered) (seen : List Bytes)
      (tools : List ToolDefinition) (r : Result CallError ListToolsResult × Client)
      → IsKept wire seen tools
      → ((cursor : Bytes) (seen : List Bytes) (tools : List ToolDefinition) (c : Client)
          → IsKept wire seen tools
          → IsGood (next cursor seen tools c).0)
      → IsGood (with_answer wire accepts next seen tools r).0
  unfolding with_answer IsGood
  with_answer-IsGood next seen tools (err e, c) kept later = tt
  with_answer-IsGood next seen tools (ok result, c) kept later =
      with_page-IsGood next result.next_cursor c _
        (λ after all h. add_page-IsKept result.tools seen after tools all kept h)
        (λ after all k. later result.next_cursor after all c k)

  list_pages-IsGood :
      (pages : ℕ) (cursor : Bytes) (seen : List Bytes) (tools : List ToolDefinition) (c : Client)
      → IsKept wire seen tools
      → IsGood (list_pages wire accepts pages cursor seen tools c).0
  unfolding list_pages IsGood
  list_pages-IsGood zero cursor seen tools c kept = tt
  list_pages-IsGood (suc pages) cursor seen tools c kept =
      with_answer-IsGood (list_pages wire accepts pages) seen tools _ kept (list_pages-IsGood pages)

  -- A call takes one identifier.
  write_line-next_id :
      (r : Option Bytes) (c : Client) → (write_line wire accepts r c).1.next_id ≡ c.next_id
  unfolding write_line
  write_line-next_id none c = refl
  write_line-next_id (some text) c = elim (Bool-cases (accepts (text ++ (b'\n' ∷ [])))) [
    | inl e ↦ rw e refl
    | inr e ↦ rw e refl
  ]

  awaiting-next_id :
      {A : Type 0} (decode : Bytes → Option A) (id : Bytes)
      (r : Result CallError (Unit {0}) × Client)
      → (awaiting wire accepts decode id r).1.next_id ≡ r.1.next_id
  unfolding awaiting
  awaiting-next_id decode id (err e, c) = refl
  awaiting-next_id decode id (ok done, c) = refl

  call-next_id :
      {A : Type 0} (decode : Bytes → Option A) (method : Bytes) (params : Option Bytes) (c : Client)
      → (call wire accepts decode method params c).1.next_id ≡ suc c.next_id
  unfolding call write
  call-next_id decode method params c = awaiting-next_id decode _ _ ∙ write_line-next_id _ _

  with_answer-next_id :
      (next : Bytes → List Bytes → List ToolDefinition → Client → Discovered) (n : ℕ)
      (seen : List Bytes) (tools : List ToolDefinition)
      (r : Result CallError ListToolsResult × Client)
      → ((cursor : Bytes) (seen : List Bytes) (tools : List ToolDefinition) (c : Client)
          → (next cursor seen tools c).1.next_id ≤ c.next_id + n)
      → (with_answer wire accepts next seen tools r).1.next_id ≤ r.1.next_id + n
  unfolding with_answer
  with_answer-next_id next n seen tools (err e, c) later = omega arith
  with_answer-next_id next n seen tools (ok result, c) later =
      with_page-next_id result.next_cursor (add_page wire accepts result.tools seen tools)
    where
      with_page-next_id :
          (cursor : Bytes) (r : Result CallError (List Bytes × List ToolDefinition))
          → (with_page next cursor c r).1.next_id ≤ c.next_id + n
      with_page-next_id cursor (err e) = unfold with_page in omega arith
      with_page-next_id cursor (ok (after, all)) =
          unfold with_page in
          elim (Bool-cases (is_empty cursor)) [
            | inl e ↦ rw e (omega arith)
            | inr e ↦ rw e (later cursor after all c)
          ]

  list_pages-next_id :
      (pages : ℕ) (cursor : Bytes) (seen : List Bytes) (tools : List ToolDefinition) (c : Client)
      → (list_pages wire accepts pages cursor seen tools c).1.next_id ≤ c.next_id + pages
  unfolding list_pages
  list_pages-next_id zero cursor seen tools c = omega arith
  list_pages-next_id (suc pages) cursor seen tools c =
      let done =
        call wire accepts wire.list_result.decode (codes "tools/list")
          (wire.list_params.encode cursor) c in
      omega (
        arith,
        with_answer-next_id (list_pages wire accepts pages) pages seen tools done
            (list_pages-next_id pages),
        call-next_id wire.list_result.decode (codes "tools/list") (wire.list_params.encode cursor)
            c,
      )

none-IsKept : (wire : Wire) → IsKept wire [] []
none-IsKept wire = record { unique = none-IsUnique name_of; complete = tt; all_seen = tt }

-- Where the client discovers tools, each has a name and a schema that is not empty and that
-- json.Unmarshal reads into a map, and no two have one name; it has made at most ten requests, whatever cursors the server gives.
pub list_tools-IsUnique :
    (wire : Wire) (accepts : Bytes → Bool) (before after : Client) (tools : List ToolDefinition)
    → list_tools wire accepts before ≡ (ok tools, after)
    → IsUnique name_of tools × All (IsComplete wire) tools × (after.next_id ≤ before.next_id + 10)
unfolding list_tools IsGood
list_tools-IsUnique wire accepts before after tools h =
    let good =
      rw (ap (λ r. r.0) h) at
        (list_pages-IsGood wire accepts max_pages [] [] [] before (none-IsKept wire)) in
    (
      good.0,
      good.1,
      rw (ap (λ r. r.1) h) at (list_pages-next_id wire accepts max_pages [] [] [] before),
    )
