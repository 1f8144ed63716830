-- ===== src/Bridge/CallTool/LogFile.antt =====
-- The audit log as a file: what `AuditLogger._append_line` (sentinelmcp/telemetry/audit.py) makes of the
-- lines, and what a reader that splits it at its newlines gets.
use Prim.Native.Char.{Char, code}
use Prim.Native.String
use Prim.Native.String.append
use sentinel_mcp.Prelude.{◌≡◌, refl, ap, ◌∙◌, false, List, [], ◌∷◌, ◌++◌, map, String, arith, ◌==◌}
use sentinel_mcp.Float.{Float}
use sentinel_mcp.Text.{split}
use sentinel_mcp.Json.{Fields}
use sentinel_mcp.Json.Dumps.{chars, string_of, text_of, dumps}
use sentinel_mcp.Json.Dumps.Plain.{IsPlain, AllPlain, text_of-AllPlain}
use sentinel_mcp.Audit.Names.{is_sensitive_name}
use sentinel_mcp.Audit.Record.{AuditRecord, payload, serialize}
use sentinel_mcp.Bridge.State.{Runtime, Config, Surroundings}
use sentinel_mcp.Bridge.CallTool.{line_of}

-- The file after these lines were appended.
abbrev pub file_of : List String → String
file_of [] = ""
file_of (line ∷ lines) = String.◌++◌ line (file_of lines)

-- A line with its newline, then the rest of the file.
abbrev before_rest : String → String → String
before_rest line rest = String.◌++◌ (String.◌++◌ line "\n") rest

split-newline : (rest : String) → split 10 (before_rest "" rest) ≡ "" ∷ split 10 rest
unfolding split
split-newline rest =
    ap (split 10) (append.cons "\n" "" rest ∙ ap (λ t. String.◌∷◌ "\n" t) (append.nil rest))

before_rest-cons :
    (c : Char) (line rest : String)
    → before_rest (String.◌∷◌ c line) rest ≡ String.◌∷◌ c (before_rest line rest)
before_rest-cons c line rest =
    ap (λ t. String.◌++◌ t rest) (append.cons c line "\n")
    ∙ append.cons c (String.◌++◌ line "\n") rest

not_newline : (c : Char) → IsPlain c → (code c == 10) ≡ false
not_newline c h = ground arith

split-line :
    (cs : List Char) (rest : String)
    → AllPlain cs
    → split 10 (before_rest (string_of cs) rest) ≡ string_of cs ∷ split 10 rest
unfolding split
split-line [] rest h = split-newline rest
split-line (c ∷ cs) rest (here, h) =
    ap (split 10) (before_rest-cons c (string_of cs) rest)
    ∙ rw (not_newline c here, split-line cs rest h) refl

module _ (rt : Runtime) (config : Config) (s : Surroundings) (principal tool_name : String)
    (arguments : Fields) where
  abbrev text_in_line : AuditRecord → String
  text_in_line = serialize (is_sensitive_name rt.lower_other) rt.float_repr config.redaction_mode

  -- Where `repr` of a finite `float` has no control character: the file that the lines of any records
  -- make, split at its newlines, gives back the text of each record, in their order, and nothing after
  -- the last newline; no tool name, argument or other text in a record adds a line or breaks one.
  pub split-file_of :
      (rs : List AuditRecord)
      → ((x : Float) → AllPlain (chars (rt.float_repr x)))
      → split 10 (file_of (map (line_of rt config s principal tool_name arguments) rs))
        ≡ map text_in_line rs ++ "" ∷ []
  unfolding split line_of serialize dumps
  split-file_of [] plain = refl
  split-file_of (r ∷ rs) plain =
      split-line
        (text_of rt.float_repr (payload (is_sensitive_name rt.lower_other) config.redaction_mode r))
        (file_of (map (line_of rt config s principal tool_name arguments) rs))
        (text_of-AllPlain rt.float_repr plain
          (payload (is_sensitive_name rt.lower_other) config.redaction_mode r))
      ∙ ap (λ lines. text_in_line r ∷ lines) (split-file_of rs plain)
