-- ===== src/Awgconf/Lines.antt =====
-- How awgconf.Parse, in internal/awgconf/config.go, reads the lines that Config.String writes.
use lotsman.Prelude.{
  ℕ, ◌≡◌, refl, ap, ◌∙◌, Bool, true, false, not, ◌&&◌, ◌||◌, List, [], ◌∷◌, ◌++◌, leb, ◌==◌, nat_eq,
  All, All-append, arith,
}
use lotsman.Bytes.{Text, lower, is_digit}
use lotsman.Bytes.Trim.{
  Starts, Ends, Starts-append, Ends-append, trim-tight, trim_before, trim_after,
}
use lotsman.Bytes.Cut.{Lacks, cut-Lacks, cut-append}
use lotsman.Awgconf.Parse.{
  lines, drop_cr, bracketed, without_comment, read_entry, classify, read_line, entry,
}
use lotsman.Awgconf.Print.{unlines, assignment}

lines-append : (l t : Text) → Lacks 10 l → lines (l ++ 10 ∷ t) ≡ l ∷ lines t
unfolding lines
lines-append [] t h = refl
lines-append (b ∷ bs) t (p, h) = rw (p, lines) (rw (lines-append bs t h))

pub lines-unlines : (ls : List Text) → All (Lacks 10) ls → lines (unlines ls) ≡ ls
unfolding unlines lines
lines-unlines [] h = refl
lines-unlines (l ∷ ls) (p, h) = lines-append l (unlines ls) p ∙ ap (λ r. l ∷ r) (lines-unlines ls h)

-- A value that a line can hold: not empty, no space at its ends, no comment and no line feed in it.
abbrev pub IsPlain : Text → Type 0
IsPlain v = Starts v × Ends v × Lacks b'#' v × Lacks 10 v

-- The same by a test.
unfoldable pub lacks : ℕ → Text → Bool
lacks c [] = true
lacks c (b ∷ bs) = not (b == c) && lacks c bs

pub lacks-Lacks : (c : ℕ) (t : Text) → lacks c t ≡ true → Lacks c t
unfolding lacks
lacks-Lacks c [] h = tt
lacks-Lacks c (b ∷ bs) h = (ground (arith, h), lacks-Lacks c bs (ground (arith, h)))

pub plain : (t : Text) → Starts t → Ends t → lacks b'#' t ≡ true → lacks 10 t ≡ true → IsPlain t
plain t s e c l = (s, e, lacks-Lacks b'#' t c, lacks-Lacks 10 t l)

-- The keys are words of letters and digits.
abbrev is_word_byte : ℕ → Bool
is_word_byte b = is_digit b || (leb b'A' b && leb b b'Z') || (leb b'a' b && leb b b'z')

abbrev all_word : Text → Bool
all_word [] = true
all_word (b ∷ bs) = is_word_byte b && all_word bs

abbrev pub is_word : Text → Bool
is_word [] = false
is_word (b ∷ bs) = is_word_byte b && all_word bs

all_word-Lacks : (c : ℕ) → is_word_byte c ≡ false → (t : Text) → all_word t ≡ true → Lacks c t
all_word-Lacks c h [] w = tt
all_word-Lacks c h (b ∷ bs) w = (ground (arith, h, w), all_word-Lacks c h bs (ground (arith, w)))

all_word-Ends : (b : ℕ) (bs : Text) → is_word_byte b ≡ true → all_word bs ≡ true → Ends (b ∷ bs)
all_word-Ends b [] h w = ground (arith, h)
all_word-Ends b (c ∷ cs) h w = all_word-Ends c cs (ground (arith, w)) (ground (arith, w))

-- No byte but a letter or a digit stands in a word.
word-Lacks : (c : ℕ) → is_word_byte c ≡ false → (k : Text) → is_word k ≡ true → Lacks c k
word-Lacks c h [] w = tt
word-Lacks c h (b ∷ bs) w = all_word-Lacks c h (b ∷ bs) w

word-tight : (k : Text) → is_word k ≡ true → Starts k × Ends k
word-tight (b ∷ bs) w =
    (ground (arith, w), all_word-Ends b bs (ground (arith, w)) (ground (arith, w)))
word-tight [] w = ground (arith, w)

drop_cr-Ends : (t : Text) → Ends t → drop_cr t ≡ t
unfolding drop_cr
drop_cr-Ends [] h = absurd h
drop_cr-Ends (b ∷ []) h = ground (arith, h)
drop_cr-Ends (b ∷ c ∷ cs) h = rw (drop_cr-Ends (c ∷ cs) h)

-- A line with no space at its ends and no comment is classified as it stands.
read_line-tight : (t : Text) → Starts t → Ends t → Lacks b'#' t → read_line t ≡ classify t
unfolding read_line without_comment
read_line-tight t s k c =
    let bare : without_comment t ≡ t = rw (cut-Lacks b'#' t c, without_comment) refl in
    rw (drop_cr-Ends t k) (rw (trim-tight t s k) (rw bare refl))

classify_word :
    (b : ℕ) (bs : Text) → is_word_byte b ≡ true → classify (b ∷ bs) ≡ read_entry (b ∷ bs)
unfolding classify bracketed
classify_word b bs h = ground (arith, h)

classify-assignment :
    (k v : Text) → is_word k ≡ true → classify (assignment k v) ≡ read_entry (assignment k v)
unfolding assignment
classify-assignment [] v w = ground (arith, w)
classify-assignment (b ∷ bs) v w =
    classify_word b (bs ++ b' ' ∷ b'=' ∷ b' ' ∷ v) (ground (arith, w))

append_assoc : (k l : Text) (b : ℕ) → k ++ b ∷ l ≡ (k ++ b ∷ []) ++ l
append_assoc [] l b = refl
append_assoc (c ∷ k) l b = ap (λ t. c ∷ t) (append_assoc k l b)

pub Lacks-assignment :
    (c : ℕ)
    → is_word_byte c ≡ false
    → (b' ' == c) ≡ false
    → (b'=' == c) ≡ false
    → (k v : Text) → is_word k ≡ true
    → Lacks c v
    → Lacks c (assignment k v)
unfolding assignment
Lacks-assignment c h s e k v w l =
    All-append (λ b. (b == c) ≡ false) k (b' ' ∷ b'=' ∷ b' ' ∷ v)
      (word-Lacks c h k w, (s, (e, (s, l))))

read_entry-assignment :
    (k v : Text)
    → is_word k ≡ true
    → Starts v
    → Ends v
    → read_entry (assignment k v) ≡ entry (lower k) v
unfolding read_entry assignment
read_entry-assignment k v w s e =
    let front = k ++ b' ' ∷ [] in
    let tight = word-tight k w in
    let lacks : Lacks b'=' front =
      All-append (λ b. (b == b'=') ≡ false) k (b' ' ∷ []) (word-Lacks b'=' refl k w, (refl, tt)) in
    rw (append_assoc k (b'=' ∷ b' ' ∷ v) b' ', cut-append b'=' front (b' ' ∷ v) lacks, read_entry)
      (rw (trim_after k tight.0 tight.1, trim_before v s e) refl)

-- What String writes as `k = v`, Parse reads as the key in small letters and the value.
pub read_line-assignment :
    (k v : Text) → is_word k ≡ true → IsPlain v → read_line (assignment k v) ≡ entry (lower k) v
unfolding assignment
read_line-assignment k v w (s, e, c, f) =
    read_line-tight (assignment k v) (Starts-append k _ (word-tight k w).0)
      (Ends-append k (b' ' ∷ b'=' ∷ b' ' ∷ v) (Ends-append (b' ' ∷ b'=' ∷ b' ' ∷ []) v e))
      (Lacks-assignment b'#' refl refl refl k v w c)
    ∙ classify-assignment k v w
    ∙ read_entry-assignment k v w s e
