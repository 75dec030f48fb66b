-- ===== src/Tacview/Samples.antt =====
-- A reading of numbers and a short stream, on which the Tacview client is run.
use skyeye.Common.{pos, ◌+◌, ◌-◌, ◌||◌, List, [], ◌∷◌, ◌++◌, some, nat_eq, length, replicate}
use skyeye.Common.Text.{Text, codes}
use skyeye.Parser.Samples.{ascii}
use skyeye.Tacview.Client.{reset}
use skyeye.Tacview.Lines.{Formats}
use skyeye.Tacview.Stream.{Session, Reader, Turn, polled}
use skyeye.Tacview.Coordinates.{Floats}

abbrev pub unary : Floats
unary = record {
  parse_float = λ t. some (length t);
  print_float = λ n. replicate n b'1';
  add_float = λ a b. a + b;
  sub_float = λ a b. a - b;
}

-- Numbers are as long as their texts.
abbrev pub formats : Formats
formats = record {
  floats = unary;
  language = record ascii { is_space = λ c. nat_eq c b' ' || nat_eq c b'\n' };
  milliseconds = pos;
  parse_time = λ t. some (length t);
  print_id = λ n. replicate n b'1';
  angle = λ n. n;
}

abbrev pub line : Text → Text
line s = s ++ b'\n' ∷ []

-- A mission that begins at 4, an aircraft 1 ms later, and a line that says nothing.
abbrev pub reader : Reader
reader =
    line (codes "0,ReferenceTime=2024")
    ∷ line (codes "#1")
    ∷ line (codes "1a,Type=Air+FixedWing,Name=F-16C,Coalition=Allies,T=1|11|111")
    ∷ line (codes "// no more")
    ∷ []

abbrev pub turns : List Turn
turns = polled 1 ∷ polled 2 ∷ polled 3 ∷ polled 4 ∷ []

abbrev pub idle : Session
idle = record { client = reset; reader = []; fades = []; last_update_time = 0; starts = 0 }
