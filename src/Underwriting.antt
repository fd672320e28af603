-- ===== src/Underwriting.antt =====
-- border/underwriting.py: the ten questions of a report, and the binding of a document to an
-- admission receipt.
pub mod Questions
pub mod Controls
pub mod Evidence
pub mod Report
use minority_prophet_border.Prelude.{
  Bool, List, String, [], false, if◌then◌else◌, map, true, ◌++◌, ◌∷◌,
}
use minority_prophet_border.Py.Result.{Result, err, exn, ok, type_error, ◌>>=◌, ◌>>◌}
use minority_prophet_border.Py.Text.{codes, concat, lt_codes}
use minority_prophet_border.Admission.Base.{document_digest}
use minority_prophet_border.Platform.{Platform}
use minority_prophet_border.Py.Value.{
  Fields, Value, arr, attr_get, bool, dict, end, get, is_null, list, obj, str, truthy,
}
use minority_prophet_border.Py.Contains.{any_equal, contains_text}
use minority_prophet_border.Py.Equality.{value_eq}
use minority_prophet_border.Py.Printer.{Printer, text_of}

pub data Coverage : Type 0 where
  direct partial not_covered : Coverage

pub record QuestionFinding : Type 0 where
  pub question_id : String
  pub question : String
  pub coverage : Coverage
  pub answered : Bool
  pub evidence : Fields
  pub missing : List String
  pub note : String

abbrev pub coverage_text : Coverage → String
coverage_text direct = "direct"
coverage_text partial = "partial"
coverage_text not_covered = "not_covered"

-- `QuestionFinding.payload`
abbrev pub finding_payload : QuestionFinding → Fields
finding_payload f = dict (
    ("question_id", str f.question_id)
    ∷ ("question", str f.question)
    ∷ ("coverage", str (coverage_text f.coverage))
    ∷ ("answered", bool f.answered)
    ∷ ("evidence", obj f.evidence)
    ∷ ("missing", list (map str f.missing))
    ∷ ("note", str f.note)
    ∷ [])

-- `b.get(name) or {}`
abbrev pub section : Fields → String → Value
section b name = if truthy (get b name) then get b name else obj end

-- `_bound`: whether the document is the bound one, and else why not
unfoldable pub compare_digest : Printer → Value → String → Value → Result (Bool × String)
unfolding concat
compare_digest printer recorded name document = do
  actual ← document_digest printer.base document
  if value_eq recorded (str actual)
      then ok (true, "")
      else ok (
        false,
        concat (
            "binding_mismatch: "
            ∷ name
            ∷ " is "
            ∷ text_of printer recorded
            ∷ ", supplied document digests to "
            ∷ actual
            ∷ []),
      )

unfoldable pub bound : Printer → Value → String → Value → Result (Bool × String)
unfolding concat
bound printer receipt name document = do
  recorded ← attr_get receipt name
  if is_null recorded
      then ok (false, concat ("admission receipt has no " ∷ name ∷ []))
      else if is_null document
      then ok (false, concat (name ∷ " recorded but the document was not supplied" ∷ []))
      else compare_digest printer recorded name document

-- `{r.get(field) for r in present if field in r}`, the first of equal values; a list or a dict has
-- no hash.
unfoldable pub add_value : Value → List Value → Result (List Value)
add_value (arr vs) values = err (exn type_error "unhashable type")
add_value (obj d) values = err (exn type_error "unhashable type")
add_value v values = ok (if any_equal v values then values else v ∷ values)

unfoldable pub values_of : String → List Value → List Value → Result (List Value)
values_of name values [] = ok values
values_of name values (r ∷ rs) = do
  there ← contains_text name r
  if there
      then (attr_get r name >>= λ v. add_value v values >>= λ more. values_of name more rs)
      else values_of name values rs

-- `sorted` on texts
abbrev insert_text : String → List String → List String
insert_text s [] = s ∷ []
insert_text s (t ∷ rest) =
    let more = insert_text s rest in if lt_codes (codes t) (codes s) then t ∷ more else s ∷ t ∷ rest

abbrev pub sort_texts : List String → List String
sort_texts [] = []
sort_texts (s ∷ rest) = insert_text s (sort_texts rest)

-- What `_chain` says of one field
unfoldable pub chain_problem : Printer → String → List Value → List String
unfolding concat
chain_problem printer name [] = concat (name ∷ " absent from every document" ∷ []) ∷ []
chain_problem printer name (v ∷ []) = []
chain_problem printer name values =
    concat (
      name
      ∷ " disagrees across documents: "
      ∷ printer.repr_of (list (map str (sort_texts (map (text_of printer) values))))
      ∷ [])
    ∷ []

abbrev pub keep_truthy : List Value → List Value
keep_truthy [] = []
keep_truthy (v ∷ vs) = if truthy v then v ∷ keep_truthy vs else keep_truthy vs

unfoldable pub chain_loop : Printer → List Value → List String → Result (List String)
chain_loop printer present [] = ok []
chain_loop printer present (name ∷ names) = do
  values ← values_of name [] present
  rest ← chain_loop printer present names
  ok (chain_problem printer name values ++ rest)

-- `_chain`, its problems; the records are consistent where there are none.
unfoldable pub chain : Printer → List Value → Result (List String)
chain printer records =
    chain_loop printer (keep_truthy records) ("subject_id" ∷ "principal_id" ∷ "delegation_id" ∷ [])
