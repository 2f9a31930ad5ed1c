-- ===== src/Awgconf/RoundTrip.antt =====
-- Parsing what Config.String of internal/awgconf/config.go writes. A `Runs` says what a part of the
-- lines does to the parser's state, whatever the lines after it are; parts are put together by `++`.
pub mod Plain
pub mod Sections
pub mod Parameters
pub mod Whole
use lotsman.Prelude.{
  ℕ, ◌+◌, ◌≤◌, ◌≡◌, refl, sym, ap, ◌∙◌, Bool, true, false, not, Option, none, some, List, [], ◌∷◌,
  ◌++◌, length, ltb, ◌==◌, nat_eq, if◌then◌else◌, inl, inr, All, All-append, Bool-cases, arith,
  String,
}
use lotsman.Bytes.{Text, codes, lower}
use lotsman.Awgconf.{Interface, Peer, Config, Codec}
use lotsman.Awgconf.Parse.{
  Result, ok, err, Line, entry, line_limit, read_line, set_interface, set_peer,
}
use lotsman.Awgconf.Scan.{State, Section, in_interface, in_peer, run, step, on_last, set_key}
use lotsman.Awgconf.Print.{line, line_if, assignment}
use lotsman.Bytes.Cut.{Lacks}
use lotsman.Awgconf.Lines.{IsPlain, is_word, read_line-assignment, Lacks-assignment}

abbrev pub IsShort : List Text → Type 0
IsShort = All (λ (l : Text). length l ≤ line_limit)

All-split : (P : Text → Type 0) (ls ks : List Text) → All P (ls ++ ks) → All P ls × All P ks
All-split P [] ks h = (tt, h)
All-split P (l ∷ ls) ks (p, h) = let (a, b) = All-split P ls ks h in ((p, a), b)

pub append_assoc : {A : Type 0} (ls ks rest : List A) → (ls ++ ks) ++ rest ≡ ls ++ (ks ++ rest)
append_assoc [] ks rest = refl
append_assoc (l ∷ ls) ks rest = ap (λ t. l ∷ t) (append_assoc ls ks rest)

module _ (codec : Codec) where
  pub record Runs (ls : List Text) (s t : State) : Type 0 where
    pub lacks : All (Lacks 10) ls
    pub runs :
        IsShort ls
        → (n : ℕ) (rest : List Text) → (m : ℕ) × (run codec n s (ls ++ rest) ≡ run codec m t rest)

  pub Runs-none : (s t : State) → s ≡ t → Runs [] s t
  Runs-none s t e = record {
    lacks = tt;
    runs = λ short n rest. (n, ap (λ u. run codec n u rest) e);
  }

  step-run :
      (l : Text) (s t : State) (n : ℕ) (rest : List Text)
      → length l ≤ line_limit
      → step codec n (read_line l) s ≡ ok t
      → run codec n s (l ∷ rest) ≡ run codec (n + 1) t rest
  unfolding run
  step-run l s t n rest h e =
      let short : ltb line_limit (length l) ≡ false = ground (arith, h) in
      rw (short, run) (rw (e, run) refl)

  pub Runs-one :
      (l : Text) (s t : State)
      → Lacks 10 l
      → ((n : ℕ) → step codec n (read_line l) s ≡ ok t)
      → Runs (l ∷ []) s t
  Runs-one l s t k e = record {
    lacks = (k, tt);
    runs = λ short n rest. (n + 1, step-run l s t n rest short.0 (e n));
  }

  -- A line that String writes under a condition, and leaves out where the field is as it was.
  pub Runs-key :
      (b : Bool) (k : String) (v : Text) (s t : State)
      → is_word (codes k) ≡ true
      → (b ≡ true → IsPlain v × (set_key codec (lower (codes k)) v s ≡ ok t))
      → (b ≡ false → s ≡ t)
      → Runs (line_if b k v) s t
  unfolding step
  Runs-key false k v s t w f g = Runs-none s t (g refl)
  Runs-key true k v s t w f g =
      let (plain, e) = f refl in
      Runs-one (assignment (codes k) v) s t
        (Lacks-assignment 10 refl refl refl (codes k) v w plain.3)
        (λ n. rw (read_line-assignment (codes k) v w plain) (rw (e, step) refl))

-- Parts one after the other.
infixl 5 ◌then_runs◌
pub ◌then_runs◌ :
    {codec : Codec} {ls ks : List Text} {s t u : State}
    → Runs codec ls s t
    → Runs codec ks t u
    → Runs codec (ls ++ ks) s u
◌then_runs◌ {codec} {ls} {ks} {s} {t} {u} f g = record {
  lacks = All-append (Lacks 10) ls ks (f.lacks, g.lacks);
  runs = λ short n rest. walk (All-split _ ls ks short) n rest;
}
  where
    walk :
        IsShort ls × IsShort ks
        → (n : ℕ) (rest : List Text)
        → (m : ℕ) × (run codec n s ((ls ++ ks) ++ rest) ≡ run codec m u rest)
    walk (p, q) n rest =
        let (m, e) = f.runs p n (ks ++ rest) in
        let (k, d) = g.runs q m rest in (k, ap (run codec n s) (append_assoc ls ks rest) ∙ e ∙ d)
