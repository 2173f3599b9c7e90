-- ===== src/Services/Cmd/Tokens/Words.antt =====
-- The arguments of a command are its words.
use v2_engine.Common.{
  ℕ, zero, suc, ◌≤◌, ◌<◌, ◌≡◌, inl, inr, false, Option, none, some, List, [], ◌∷◌, ◌++◌, ◌==◌,
  if◌then◌else◌, take, drop, length, length-drop, All, arith, refl, sym, ap, ◌∙◌, Option-cases,
}
use mathlib.Core.Option
use mathlib.Core.List.{append_assoc, append-nil}
use v2_engine.Services.Cmd.Tokens.{Text, space, find, find_first_not_of, args_loop, parse}

-- The maximal runs of bytes other than spaces, with the run that is being read.
abbrev flush : Text → List Text
flush [] = []
flush (c ∷ cs) = (c ∷ cs) ∷ []

words_from : Text → Text → List Text
words_from current [] = flush current
words_from current (c ∷ cs) =
    if c == space then flush current ++ words_from [] cs else words_from (current ++ c ∷ []) cs

pub words : Text → List Text
unfolding words_from
words s = words_from [] s

skip-words :
    (s : Text) (k : ℕ)
    → find_first_not_of space s ≡ some k
    → words_from [] (drop k s) ≡ words_from [] s
unfolding find_first_not_of words_from
skip-words [] k e = cc
skip-words (c ∷ cs) zero e = refl
skip-words (c ∷ cs) (suc k) e = ground (arith, skip-words cs k)

blank-words : (s : Text) → find_first_not_of space s ≡ none → words_from [] s ≡ []
unfolding find_first_not_of words_from
blank-words [] e = refl
blank-words (c ∷ cs) e = ground (arith, blank-words cs)

last-words : (s current : Text) → find space s ≡ none → words_from current s ≡ flush (current ++ s)
unfolding find words_from
last-words [] current e = rw append-nil
last-words (c ∷ cs) current e =
    ground (arith, last-words cs (current ++ c ∷ []), append_assoc current (c ∷ []) cs)

next-words :
    (s current : Text) (k : ℕ)
    → find space s ≡ some k
    → words_from current s ≡ flush (current ++ take k s) ++ words_from [] (drop (suc k) s)
unfolding find words_from
next-words [] current k e = cc
next-words (c ∷ cs) current zero e = ground (arith, append-nil current)
next-words (c ∷ cs) current (suc k) e =
    ground (arith, next-words cs (current ++ c ∷ []) k, append_assoc current (c ∷ []) (take k cs))

start_byte :
    (s : Text) (k : ℕ)
    → find_first_not_of space s ≡ some k
    → (c : ℕ) × (cs : Text) × (drop k s ≡ c ∷ cs)
      × ((c == space) ≡ false)
      × (length (c ∷ cs) ≤ length s)
unfolding find_first_not_of
start_byte [] k e = cc
start_byte (c ∷ cs) zero e = (c, cs, refl, ground arith, omega arith)
start_byte (c ∷ cs) (suc k) e =
    let (d, ds, at, other, short) = start_byte cs k (ground arith) in
    (d, ds, at, other, omega (arith, short))

first-words :
    (d : ℕ) (ds : Text) → (d == space) ≡ false → words_from [] (d ∷ ds) ≡ words_from (d ∷ []) ds
unfolding words_from
first-words d ds other = rw other

abbrev round_from : ℕ → Text → Option (List Text)
round_from fuel rest = elim (find space rest) [
  | none ↦ some (rest ∷ [])
  | some end ↦ Option.map (λ args. take end rest ∷ args) (args_loop fuel (drop (suc end) rest))
]

args_loop-round :
    (fuel c : ℕ) (cs : Text) (k : ℕ)
    → find_first_not_of space (c ∷ cs) ≡ some k
    → args_loop (suc fuel) (c ∷ cs) ≡ round_from fuel (drop k (c ∷ cs))
unfolding args_loop
args_loop-round fuel c cs k e = rw (e, args_loop) refl

-- The rest of a round, which begins at a byte that is no space.
round-words :
    (fuel d : ℕ) (ds : Text)
    → (d == space) ≡ false
    → ((s : Text) → length s ≤ length ds → args_loop fuel s ≡ some (words_from [] s))
    → round_from fuel (d ∷ ds) ≡ some (words_from [] (d ∷ ds))
unfolding find
round-words fuel d ds other next = elim (Option-cases (find space ds)) [
  | inl e ↦
      rw (other, e, round_from) (ap some (sym (first-words d ds other ∙ last-words ds (d ∷ []) e)))
  | inr (k, e) ↦
      rw (other, e, round_from)
        (ap (Option.map (λ args. take (suc k) (d ∷ ds) ∷ args))
            (next (drop (suc k) ds) (omega (arith, length-drop (suc k) ds)))
          ∙ ap some (sym (first-words d ds other ∙ next-words ds (d ∷ []) k e)))
]

-- With more fuel than bytes the loop over the rest of a command ends, and gives its words: the maximal
-- runs of bytes other than spaces, in order.
pub args_loop-words : (fuel : ℕ) (s : Text) → length s < fuel → args_loop fuel s ≡ some (words s)
unfolding args_loop words
args_loop-words zero s h = elim h [ ]
args_loop-words (suc fuel) [] h = refl
args_loop-words (suc fuel) (c ∷ cs) h = elim (Option-cases (find_first_not_of space (c ∷ cs))) [
  | inl e ↦ rw (e, args_loop) (ap some (sym (blank-words (c ∷ cs) e)))
  | inr (k, e) ↦
      let (d, ds, at, other, short) = start_byte (c ∷ cs) k e in
      args_loop-round fuel c cs k e
      ∙ ap (round_from fuel) at
      ∙ round-words fuel d ds other (λ s h'. args_loop-words fuel s (omega (arith, short)))
      ∙ ap (λ t. some (words_from [] t)) (sym at)
      ∙ ap some (skip-words (c ∷ cs) k e)
]

find-cons :
    (c : ℕ) (cs : Text)
    → (c == space) ≡ false
    → find space (c ∷ cs) ≡ Option.map suc (find space cs)
unfolding find
find-cons c cs other = rw other

parse-none : (fuel : ℕ) (cmd : Text) → find space cmd ≡ none → parse fuel cmd ≡ some (cmd, [])
unfolding parse
parse-none fuel cmd e = rw (e, parse)

parse-some :
    (fuel k : ℕ) (cmd : Text)
    → find space cmd ≡ some k
    → parse fuel cmd ≡ Option.map (λ args. (take k cmd, args)) (args_loop fuel (drop (suc k) cmd))
unfolding parse
parse-some fuel k cmd e = rw (e, parse)

-- With more fuel than bytes, a command that begins with a byte other than a space comes apart into its
-- words: the first is its name and the others are the arguments.
pub parse-words :
    (fuel c : ℕ) (cs : Text)
    → (c == space) ≡ false
    → length (c ∷ cs) < fuel
    → (name : Text) × (args : List Text) × (parse fuel (c ∷ cs) ≡ some (name, args))
      × (name ∷ args ≡ words (c ∷ cs))
unfolding words
parse-words fuel c cs other h = elim (Option-cases (find space cs)) [
  | inl e ↦ (
    c ∷ cs,
    [],
    parse-none fuel (c ∷ cs) (find-cons c cs other ∙ ap (Option.map suc) e),
    sym (first-words c cs other ∙ last-words cs (c ∷ []) e),
  )
  | inr (k, e) ↦ (
    c ∷ take k cs,
    words_from [] (drop (suc k) cs),
    parse-some fuel (suc k) (c ∷ cs) (find-cons c cs other ∙ ap (Option.map suc) e)
        ∙ ap (Option.map (λ args. (take (suc k) (c ∷ cs), args)))
            (args_loop-words fuel (drop (suc k) cs) (omega (arith, length-drop (suc k) cs))),
    sym (first-words c cs other ∙ next-words cs (c ∷ []) k e),
  )
]

abbrev pub Spaceless : Text → Type 0
Spaceless = All (λ c. (c == space) ≡ false)

Spaceless-words :
    (t rest current : Text)
    → Spaceless t
    → words_from current (t ++ rest) ≡ words_from (current ++ t) rest
unfolding words_from
Spaceless-words [] rest current h = rw append-nil
Spaceless-words (c ∷ t) rest current (h, hs) =
    ground (arith, Spaceless-words t rest (current ++ c ∷ []), append_assoc current (c ∷ []) t)

-- A word in front of a space, and a word at the end.
pub words-cons :
    (c : ℕ) (t rest : Text)
    → Spaceless (c ∷ t)
    → words ((c ∷ t) ++ space ∷ rest) ≡ (c ∷ t) ∷ words rest
unfolding words words_from
words-cons c t rest h = Spaceless-words (c ∷ t) (space ∷ rest) [] h

pub words-last : (c : ℕ) (t : Text) → Spaceless (c ∷ t) → words (c ∷ t) ≡ (c ∷ t) ∷ []
unfolding words words_from
words-last c t h = ap (words_from []) (sym (append-nil (c ∷ t))) ∙ Spaceless-words (c ∷ t) [] [] h

-- The fuel that a command is given is enough, whatever its bytes.
pub parse_total : (cmd : Text) → (p : Text × List Text) × (parse (suc (length cmd)) cmd ≡ some p)
parse_total cmd = elim (Option-cases (find space cmd)) [
  | inl e ↦ ((cmd, []), parse-none (suc (length cmd)) cmd e)
  | inr (k, e) ↦ (
    (take k cmd, words (drop (suc k) cmd)),
    parse-some (suc (length cmd)) k cmd e
        ∙ ap (Option.map (λ args. (take k cmd, args))) (
            args_loop-words (suc (length cmd)) (drop (suc k) cmd)
              (omega (arith, length-drop (suc k) cmd))),
  )
]
