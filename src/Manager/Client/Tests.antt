-- ===== src/Manager/Client/Tests.antt =====
-- Application of the theorem on the catalog, with numbers written as strokes.
use Prim.Native.Char.{char}
use myco_agent.Common.{
  ℕ, zero, suc, String, ◌≡◌, refl, ap, ◌∙◌, Bool, true, false, Option, none, some, [], ◌∷◌, length,
  ◌==◌, if◌then◌else◌,
}
use myco_agent.Models.{CatalogQuery}
use myco_agent.Text.{Chars, chars, text, chars-text}
use myco_agent.Manager.Api.{catalog_handler}
use myco_agent.Text.{strip}
use myco_agent.Node.Specs.RoundTrip.{Plain}
use myco_agent.Cli.Ctl.{ctl_catalog_params}
use myco_agent.Cli.Ctl.Query.{option_of, ctl_catalog_lem}
use myco_agent.Manager.Client.{send, asked, query_of}

abbrev strokes : ℕ → Chars
strokes zero = []
strokes (suc n) = char b'I' tt ∷ strokes n

abbrev decimal : ℕ → String
decimal n = text (strokes n)

abbrev read_bool : String → Option Bool
read_bool value =
    if value == "true" then some true else if value == "false" then some false else none

abbrev read_int : String → Option ℕ
read_int value = some (length (chars value))

int_read : (n : ℕ) → read_int (decimal n) ≡ some n
int_read n = ap (λ cs. some (length cs)) (chars-text (strokes n)) ∙ ap some (length-strokes n)
  where
    length-strokes : (n : ℕ) → length (strokes n) ≡ n
    length-strokes zero = refl
    length-strokes (suc n) = ap suc (length-strokes n)

abbrev query : CatalogQuery
query = record {
  group = "lab";
  idle_only = false;
  skills = "coding" ∷ ("review" ∷ []);
  tools = "shell" ∷ [];
  exclude_node_id = some "a1";
  model = some "";
  min_context_window = some 3;
  min_memory_mb = none;
}

abbrev plain_query : CatalogQuery
plain_query = record query { exclude_node_id = none }

coding : Plain "coding"
unfolding strip
coding = record { nonempty = refl; no_comma = refl; no_spaces = refl }

review : Plain "review"
unfolding strip
review = record { nonempty = refl; no_comma = refl; no_spaces = refl }

shell : Plain "shell"
unfolding strip
shell = record { nonempty = refl; no_comma = refl; no_spaces = refl }

ctl_catalog_lem_example :
    asked 7 (
      query_of decimal read_bool read_int (
        ctl_catalog_params decimal "lab" false
          (option_of ("coding" ∷ ("review" ∷ [])))
          (option_of ("shell" ∷ []))
          (some "")
          (some 3)
          none))
    ≡ send (catalog_handler 7 plain_query)
ctl_catalog_lem_example =
    ctl_catalog_lem decimal read_bool read_int refl refl int_read 7 plain_query refl
      (coding, (review, tt)) (shell, tt)
