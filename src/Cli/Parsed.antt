-- ===== src/Cli/Parsed.antt =====
-- Options in either spelling, and the end of the loops over them (src/main.c, src/proof_main.c).
use deadflash.Base.{
  ℕ, zero, suc, ◌≤◌, ◌≡◌, refl, ap, Bool, true, false, Option, none, some, List, [], ◌∷◌, ◌++◌,
  if◌then◌else◌, arith, none≢some, some_inj,
}
use deadflash.Base.Texts.{text_eq, text_eq_self}
use deadflash.Cli.{
  Args, Round, after_equals, separate_value, next_value, valued, switch, unknown_option,
  option_loop, count_args, parse_options,
}
use deadflash.Cli.Options.{
  SealArgs, WriteArgs, VerifyArgs, FormatArgs, BenchArgs, seal_round, size_round, write_round,
  verify_round, format_round, bench_round,
}

after_equals_joined :
    (name value : List ℕ) → after_equals name (name ++ (b'=' ∷ value)) ≡ some value
unfolding after_equals
after_equals_joined [] value = refl
after_equals_joined (n ∷ name) value = ground (arith, after_equals_joined name value)

after_equals_self : (name : List ℕ) → after_equals name name ≡ none
unfolding after_equals
after_equals_self [] = refl
after_equals_self (n ∷ name) = ground (arith, after_equals_self name)

-- An option that is spelled `--name=value` is read like `--name value`: both give the value, and leave
-- the arguments behind it.
next_value_spellings :
    (name value : List ℕ) (rest : Args)
    → (next_value name (name ++ (b'=' ∷ value)) rest ≡ some (value, rest))
      × (next_value name name (value ∷ rest) ≡ some (value, rest))
unfolding next_value separate_value
next_value_spellings name value rest =
    (rw (after_equals_joined name value), rw (after_equals_self name, text_eq_self name))

-- A round leaves no more arguments than stood behind the one that it read.
abbrev pub Shrinks : {S : Type 0} → Round S → Type 0
Shrinks {S} round =
    (set set' : S) (arg : List ℕ) (rest left : Args)
    → round set arg rest ≡ some (set', left)
    → count_args left ≤ count_args rest

next_value-le :
    (name arg value : List ℕ) (rest left : Args)
    → next_value name arg rest ≡ some (value, left)
    → count_args left ≤ count_args rest
unfolding next_value separate_value
next_value-le name arg value [] left e = ground arith
next_value-le name arg value (a ∷ rest) left e = ground arith

module _ {S : Type 0} where
  unknown_option-Shrinks : Shrinks {S = S} unknown_option
  unfolding unknown_option
  unknown_option-Shrinks set set' arg rest left e = absurd (none≢some e)

  valued-Shrinks :
      (name : List ℕ) (apply : S → List ℕ → Option S) (other : Round S)
      → Shrinks other
      → Shrinks (valued name apply other)
  unfolding valued
  valued-Shrinks name apply other h set set' arg rest left e =
      ends (next_value name arg rest) refl e
    where
      applied :
          (o : Option S) (given : Args)
          → (elim o as (λ _. Option (S × Args)) [ none ↦ none | some s ↦ some (s, given) ])
            ≡ some (set', left)
          → given ≡ left
      applied none given e = absurd (none≢some e)
      applied (some s) given e = ap (λ r. r.1) (some_inj e)

      ends :
          (o : Option (List ℕ × Args))
          → next_value name arg rest ≡ o
          → (elim o as (λ _. Option (S × Args)) [
            | none ↦ other set arg rest
            | some (value, given) ↦ elim (apply set value) [
              | none ↦ none
              | some s ↦ some (s, given)
            ]
          ])
            ≡ some (set', left)
          → count_args left ≤ count_args rest
      ends none eq e = h set set' arg rest left e
      ends (some (value, given)) eq e = omega (
        arith,
        next_value-le name arg value rest given eq,
        ap count_args (applied (apply set value) given e),
      )

  switch-Shrinks :
      (name : List ℕ) (apply : S → S) (other : Round S)
      → Shrinks other
      → Shrinks (switch name apply other)
  unfolding switch
  switch-Shrinks name apply other h set set' arg rest left e = ends (text_eq arg name) e
    where
      ends :
          (b : Bool)
          → (if b then some (apply set, rest) else other set arg rest) ≡ some (set', left)
          → count_args left ≤ count_args rest
      ends true e = omega (arith, ap (λ r. count_args r.1) (some_inj e))
      ends false e = h set set' arg rest left e

  -- The end of the loop over options, as a derivation: all arguments are read, or a round rejects one.
  -- A loop that does not end has none.
  pub data Finishes (round : Round S) : S → Args → Option S → Type 0 where
    all_read : {set : S} → Finishes round set [] (some set)
    rejected :
        {set : S} {arg : List ℕ} {rest : Args}
        → round set arg rest ≡ none
        → Finishes round set (arg ∷ rest) none
    read :
        {set set' : S} {arg : List ℕ} {rest left : Args} {result : Option S}
        → round set arg rest ≡ some (set', left)
        → Finishes round set' left result
        → Finishes round set (arg ∷ rest) result

  -- With a round that takes an argument at least, as many rounds as there are arguments are enough to come
  -- to the end.
  option_loop-Finishes :
      (round : Round S)
      → Shrinks round
      → (n : ℕ) (set : S) (args : Args) → count_args args ≤ n
      → Finishes round set args (option_loop round n set args)
  unfolding option_loop
  option_loop-Finishes round h n set [] p = all_read
  option_loop-Finishes round h zero set (arg ∷ rest) p = absurd (omega arith)
  option_loop-Finishes round h (suc n) set (arg ∷ rest) p =
      ends (round set arg rest) refl
        (λ s left e. option_loop-Finishes round h n s left (omega (arith, h set s arg rest left e)))
    where
      ends :
          (o : Option (S × Args))
          → round set arg rest ≡ o
          → ((s : S) (left : Args)
              → round set arg rest ≡ some (s, left)
              → Finishes round s left (option_loop round n s left))
          → Finishes round set (arg ∷ rest) (elim o as (λ _. Option S) [
            | none ↦ none
            | some (s, left) ↦ option_loop round n s left
          ])
      ends none e ih = rejected e
      ends (some (s, left)) e ih = read e (ih s left e)

seal_round-Shrinks : (takes_proof : Bool) → Shrinks (seal_round takes_proof)
unfolding seal_round
seal_round-Shrinks takes_proof = valued-Shrinks _ _ _ (
    valued-Shrinks _ _ _ (
      valued-Shrinks _ _ _ (
        valued-Shrinks _ _ _ (
          valued-Shrinks _ _ _ (
            valued-Shrinks _ _ _ (
              valued-Shrinks _ _ _ (
                switch-Shrinks _ _ _ (
                  switch-Shrinks _ _ _
                    (switch-Shrinks _ _ _ (switch-Shrinks _ _ _ unknown_option-Shrinks))))))))))

size_round-Shrinks : (name : List ℕ) → Shrinks (size_round name)
unfolding size_round
size_round-Shrinks name = valued-Shrinks _ _ _ unknown_option-Shrinks

write_round-Shrinks : Shrinks write_round
unfolding write_round
write_round-Shrinks = valued-Shrinks _ _ _ (
    valued-Shrinks _ _ _ (
      valued-Shrinks _ _ _ (
        valued-Shrinks _ _ _ (
          valued-Shrinks _ _ _ (
            switch-Shrinks _ _ _ (
              switch-Shrinks _ _ _
                (switch-Shrinks _ _ _ (switch-Shrinks _ _ _ unknown_option-Shrinks))))))))

verify_round-Shrinks : Shrinks verify_round
unfolding verify_round
verify_round-Shrinks =
    valued-Shrinks _ _ _ (valued-Shrinks _ _ _ (valued-Shrinks _ _ _ unknown_option-Shrinks))

format_round-Shrinks : Shrinks format_round
unfolding format_round
format_round-Shrinks = valued-Shrinks _ _ _ (
    valued-Shrinks _ _ _ (
      valued-Shrinks _ _ _ (
        valued-Shrinks _ _ _ (
          switch-Shrinks _ _ _
            (switch-Shrinks _ _ _ (switch-Shrinks _ _ _ unknown_option-Shrinks))))))

bench_round-Shrinks : Shrinks bench_round
unfolding bench_round
bench_round-Shrinks = valued-Shrinks _ _ _ (valued-Shrinks _ _ _ unknown_option-Shrinks)

parse_options-Finishes :
    {S : Type 0} (round : Round S)
    → Shrinks round
    → (set : S) (args : Args) → Finishes round set args (parse_options round set args)
unfolding parse_options
parse_options-Finishes round h set args =
    option_loop-Finishes round h (count_args args) set args (omega arith)

-- The loops over the options of seal, write, manifest, verify, plan, format-fat32 and bench, in both
-- programs, end for any arguments, and what they give is what the rounds come to: the settings that
-- they have made once all arguments are read, or nothing where a round rejects one.
pub parse_options_ends :
    (args : Args)
    → ((takes_proof : Bool) (set : SealArgs)
        → Finishes
            (seal_round takes_proof)
            set
            args
            (parse_options (seal_round takes_proof) set args))
      × ((name : List ℕ) (set : ℕ)
          → Finishes (size_round name) set args (parse_options (size_round name) set args))
      × ((set : WriteArgs) → Finishes write_round set args (parse_options write_round set args))
      × ((set : VerifyArgs) → Finishes verify_round set args (parse_options verify_round set args))
      × ((set : FormatArgs) → Finishes format_round set args (parse_options format_round set args))
      × ((set : BenchArgs) → Finishes bench_round set args (parse_options bench_round set args))
parse_options_ends args = (
  λ takes_proof set.
      parse_options-Finishes (seal_round takes_proof) (seal_round-Shrinks takes_proof) set args,
  λ name set. parse_options-Finishes (size_round name) (size_round-Shrinks name) set args,
  λ set. parse_options-Finishes write_round write_round-Shrinks set args,
  λ set. parse_options-Finishes verify_round verify_round-Shrinks set args,
  λ set. parse_options-Finishes format_round format_round-Shrinks set args,
  λ set. parse_options-Finishes bench_round bench_round-Shrinks set args,
)
