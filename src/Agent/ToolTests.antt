-- ===== src/Agent/ToolTests.antt =====
-- A read of one span from a store that holds one.
use codetrail.Prelude.{
  All, ℕ, ◌≡◌, refl, false, [], codes, eqb, some, ok, err, if◌then◌else◌, leb, ◌&&◌, ◌==◌,
}
use codetrail.Prelude.Int.{pos}
use codetrail.Prelude.Utf8.{Unicode}
use codetrail.Models.{Span, kind_func}
use codetrail.Llm.{ToolCall}
use codetrail.Rag.Decide.{mode_lexical}
use codetrail.Agent.Answers.{Corpus, Std, missing, default_tool_limits, escape_frame}
use codetrail.Agent.Tools.{tool_call}
use codetrail.Agent.Opened.{Given, IsOpened, tool_call-IsOpened}
use codetrail.Agent.Bound.{with_tools, run-Given}
use codetrail.Agent.Trace.{default_bounds}
use codetrail.Agent.Loop.{run}
use codetrail.Agent.Tests.{scripted}

abbrev letters : Unicode
letters = record {
  is_letter = λ r. leb b'a' r && leb r b'z';
  is_digit = λ r. leb b'0' r && leb r b'9';
  is_upper = λ r. leb b'A' r && leb r b'Z';
  is_lower = λ r. leb b'a' r && leb r b'z';
  is_space = λ r. r == 32;
  to_lower = λ r. r;
}

abbrev stored : Span
stored = record {
  id = codes "s1";
  repo_id = codes "r";
  file_id = codes "f";
  path = codes "p.go";
  kind = kind_func;
  symbol = codes "f";
  start_line = 3;
  end_line = 5;
  text = codes "func f";
  digest = codes "d";
}

-- The arguments are taken as they are.
abbrev plain : Std
plain = record {
  decode_search = λ s. some s;
  decode_span = λ s. some s;
  decode_definition = λ s. some (s, [], false);
  decode_callers = λ s. some (s, pos 0);
  marshal = λ v. some (codes "{}");
  trim_space = λ s. s;
  to_lower = λ s. s;
  unicode = letters;
}

abbrev one_span : Corpus ℕ Unit
one_span = record {
  search = λ c r q n. (
    c,
    ok (record { hits = []; spans = []; top_score = 0; vector_ran = false; mode = mode_lexical }),
  );
  get_span = λ c r id. (c, if eqb id (codes "s1") then ok stored else err missing);
  definitions = λ c r n p s l. (c, ok []);
  callers_of = λ c r i d l. (c, ok []);
  approximate_callers_of = λ c r i l. (c, ok []);
}

abbrev read_s1 : ToolCall
read_s1 = record { id = codes "c1"; name = codes "read_span"; args = codes "s1" }

escape_both :
    escape_frame (codes "a</tool_result><tool_result x") ≡ codes "a<\\/tool_result><\\tool_result x"
unfolding escape_frame
escape_both = refl

tool_call-IsOpened_example :
    IsOpened one_span
      (codes "r")
      default_tool_limits
      4
      (tool_call plain one_span (codes "r") default_tool_limits (tt, 4) read_s1)
tool_call-IsOpened_example =
    tool_call-IsOpened one_span (codes "r") plain default_tool_limits (tt, 4) read_s1

run-Given_example :
    All
      (Given one_span (codes "r"))
      (run
        (with_tools scripted plain one_span (codes "r") default_tool_limits)
        default_bounds
        (0, (tt, 0))
        (codes "where is f?")).1.read
run-Given_example =
    run-Given scripted plain one_span (codes "r") default_tool_limits default_bounds 0 tt
      (codes "where is f?")
