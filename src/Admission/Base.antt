-- ===== src/Admission/Base.antt =====
-- border/admission.py: digests of documents, and the module's checks of fields and times.
use minority_prophet_border.Prelude.{String, List, [], ◌∷◌}
use minority_prophet_border.Platform.{Platform}
use minority_prophet_border.Jcs.{canonicalize}
use minority_prophet_border.Py.Result.{Exn, exn, admission_error, Result, ok, ◌>>=◌}
use minority_prophet_border.Py.Text.{append, concat}
use minority_prophet_border.Py.Value.{Value, Fields}
use minority_prophet_border.Py.Clock.{Time}
use minority_prophet_border.Py.Bindings

unfoldable pub document_digest : Platform → Value → Result String
document_digest p v = do bytes ← canonicalize v; ok (append "sha256:" (p.sha256 bytes))

abbrev pub refused : String → Exn
refused message = exn admission_error message

unfoldable pub required : String → Fields → List String → Result (Unit {0})
unfolding Bindings.required
required label rec fields = Bindings.required admission_error label rec fields

unfoldable pub time_field : Platform → Value → String → Result Time
unfolding Bindings.parse_time
time_field p v name = Bindings.parse_time p admission_error v name

abbrev pub substitution : String → String → Exn
substitution owner f = refused (concat (owner ∷ " " ∷ f ∷ " substitution" ∷ []))
