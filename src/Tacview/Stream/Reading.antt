-- ===== src/Tacview/Stream/Reading.antt =====
-- pkg/tacview/client/client.go: what handleUpdate reads as one line.
use skyeye.Common.{
  ◌-◌, ◌≡◌, refl, sym, ap, ◌∙◌, true, false, List, [], ◌∷◌, ◌++◌, some, arith, list_Eq, list_eq,
  list_eq_iff, length, take, take-append_length, length-append,
}
use mathlib.Core.List.{append_assoc}
use skyeye.Common.Text.{Text}
use skyeye.Tacview.Stream.{Reader, has_suffix, line_break, read_continuation, read_line}

-- Lines that each end in a line break that continues the line.
abbrev pub broken_lines : List Text → Reader
broken_lines [] = []
broken_lines (part ∷ parts) = (part ++ line_break) ∷ broken_lines parts

-- The lines put together, with the line breaks in them.
abbrev pub joined : List Text → Text
joined [] = []
joined (line ∷ lines) = line ++ joined lines

has_suffix-append : (suffix s : Text) → has_suffix suffix (s ++ suffix) ≡ true
unfolding has_suffix list_eq
has_suffix-append [] [] = refl
has_suffix-append (c ∷ cs) [] = rw ((list_eq_iff (c ∷ cs) (c ∷ cs)).1 refl) refl
has_suffix-append suffix (c ∷ s) = ground (arith, has_suffix-append suffix s)

read_continuation-broken_lines :
    (so_far : Text) (parts : List Text) (last : Text) (rest : Reader)
    → has_suffix line_break last ≡ false
    → read_continuation so_far (broken_lines parts ++ last ∷ rest)
      ≡ some (so_far ++ (joined (broken_lines parts) ++ last), rest)
unfolding read_continuation
read_continuation-broken_lines so_far [] last rest ends = rw ends refl
read_continuation-broken_lines so_far (part ∷ parts) last rest ends =
    rw (has_suffix-append line_break part) (
      read_continuation-broken_lines (so_far ++ (part ++ line_break)) parts last rest ends
      ∙ ap (λ t. some (t, rest))
          (append_assoc so_far (part ++ line_break) (joined (broken_lines parts) ++ last)
            ∙ ap (λ t. so_far ++ t)
                (sym (append_assoc (part ++ line_break) (joined (broken_lines parts)) last))))

-- A line that ends in a backslash goes on in the next lines, up to the first that does not: its own
-- line break is taken off, and the line breaks of the others stay in the text.
pub read_line-broken_lines :
    (first : Text) (parts : List Text) (last : Text) (rest : Reader)
    → has_suffix line_break last ≡ false
    → read_line ((first ++ line_break) ∷ (broken_lines parts ++ last ∷ rest))
      ≡ some (first ++ (joined (broken_lines parts) ++ last), rest)
unfolding read_line
read_line-broken_lines first parts last rest ends =
    rw (has_suffix-append line_break first, short)
      (read_continuation-broken_lines first parts last rest ends)
  where
    two : length (first ++ line_break) - 2 ≡ length first
    two = omega (arith, length-append first line_break)

    short : take (length (first ++ line_break) - 2) (first ++ line_break) ≡ first
    short = rw two (take-append_length first line_break)
