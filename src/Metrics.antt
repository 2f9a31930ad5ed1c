-- ===== src/Metrics.antt =====
-- internal/metrics/metrics.go: samples in the Prometheus text format. A sample's value is the text that
-- strconv.FormatFloat gives; the buffered writer and the HTTP handler are not modelled.
pub mod Quoting
pub mod Tests
use lotsman.Prelude.{
  ℕ, ◌≡◌, Bool, true, false, Option, none, some, List, [], ◌∷◌, ◌++◌, map, filter, ltb, ◌==◌,
  nat_eq, if◌then◌else◌,
}
use lotsman.Bytes.{Text, codes, join, same_text}

pub record Label : Type 0 where
  pub name : Text
  pub value : Text

pub record Sample : Type 0 where
  pub name : Text
  pub labels : List Label
  pub value : Text

pub record Family : Type 0 where
  pub name : Text
  pub kind : Text
  pub help : Text

-- strings.NewReplacer: a backslash, a quote and a line feed each get a backslash.
abbrev pub escape_byte : ℕ → Text
escape_byte b =
    if b == b'\\'
    then b'\\' ∷ b'\\' ∷ []
    else if b == b'"'
    then b'\\' ∷ b'"' ∷ []
    else if b == 10
    then b'\\' ∷ b'n' ∷ []
    else b ∷ []

unfoldable pub escape : Text → Text
escape [] = []
escape (b ∷ bs) = escape_byte b ++ escape bs

unfoldable pub quoted : Label → Text
unfolding escape
quoted l = l.name ++ (b'=' ∷ b'"' ∷ (escape l.value ++ b'"' ∷ []))

unfoldable pub label_set : List Label → Text
unfolding quoted join
label_set [] = []
label_set (l ∷ ls) = b'{' ∷ (join (b',' ∷ []) (map quoted (l ∷ ls)) ++ b'}' ∷ [])

-- strings.Compare on the label sets.
unfoldable pub text_after : Text → Text → Bool
text_after [] bs = false
text_after (a ∷ as') [] = true
text_after (a ∷ as') (b ∷ bs) = if a == b then text_after as' bs else ltb b a

-- slices.SortFunc, which may leave samples with equal label sets in any order.
unfoldable pub insert_sample : Sample → List Sample → List Sample
unfolding label_set text_after
insert_sample s [] = s ∷ []
insert_sample s (t ∷ ts) =
    let rest = insert_sample s ts in
    if text_after (label_set s.labels) (label_set t.labels) then t ∷ rest else s ∷ t ∷ ts

unfoldable pub sort_samples : List Sample → List Sample
unfolding insert_sample
sort_samples [] = []
sort_samples (s ∷ ss) = insert_sample s (sort_samples ss)

unfoldable pub sample_line : Sample → Text
unfolding label_set
sample_line s = s.name ++ label_set s.labels ++ (b' ' ∷ s.value) ++ 10 ∷ []

unfoldable pub sample_lines : List Sample → Text
unfolding sample_line
sample_lines [] = []
sample_lines (s ∷ ss) = sample_line s ++ sample_lines ss

-- Each family's HELP and TYPE lines, and its samples.
unfoldable pub write : List Family → List Sample → Text
unfolding sort_samples sample_lines filter
write [] samples = []
write (f ∷ fs) samples =
    codes "# HELP "
    ++ f.name
    ++ (b' ' ∷ f.help)
    ++ (10 ∷ codes "# TYPE ")
    ++ f.name
    ++ (b' ' ∷ f.kind)
    ++ (10 ∷ [])
    ++ sample_lines (sort_samples (filter (λ s. same_text s.name f.name) samples))
    ++ write fs samples
