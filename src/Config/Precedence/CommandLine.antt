-- ===== src/Config/Precedence/CommandLine.antt =====
-- What a command line does to the variable of one flag: FlagSet.Parse, as
-- internal/outboxer/config_flags.go calls it.
use outboxer.Prelude.{
  String, true, false, Option, none, some, List, [], ◌∷◌, ◌≡◌, refl, ap, sym, inl, inr, Bool-cases,
  if◌then◌else◌, ◌==◌, string_eq, lookup, arith,
}
use outboxer.Prelude.Int.{ℤ}
use outboxer.Value.{Result, ok, err, ◌>>=◌}
use outboxer.Config.Flags.{CliOption, Cells, Parsed, find_option, flag_set}
use outboxer.Config.Arguments.{
  Argument, operand, terminator, malformed_flag, flag_of, valued_flag, undefined_flag,
  argument_then, bad_syntax, argument, is_bool, one_flag, value_or_true, parse_args,
}
use outboxer.Config.Precedence.{
  last_given, assignment, assigned_then, assigned, After, flag_set-After, After-then,
}

module _ (parse_int : String → Option ℤ) where
  module _ (options : List CliOption) (o : CliOption)
      (found : find_option parse_int o.name options ≡ some o) where
    -- One flag of the command line, with what is done after it.
    set_then :
        (name given : String) (cells cells' : Cells) (left : List String)
        (pairs : List (String × String)) (next : Cells → Result Parsed)
        → ((c : Cells)
            → next c ≡ ok (cells', left)
            → After parse_int o.kind
                (last_given o.name pairs)
                (lookup o.name c)
                (lookup o.name cells'))
        → (flag_set parse_int options name given cells >>= next) ≡ ok (cells', left)
        → After parse_int o.kind
            (last_given o.name ((name, given) ∷ pairs))
            (lookup o.name cells)
            (lookup o.name cells')
    set_then name given cells cells' left pairs next ih h =
        done (flag_set parse_int options name given cells) refl h
      where
        done :
            (r : Result Cells)
            → flag_set parse_int options name given cells ≡ r
            → (r >>= next) ≡ ok (cells', left)
            → After parse_int o.kind
                (last_given o.name ((name, given) ∷ pairs))
                (lookup o.name cells)
                (lookup o.name cells')
        done (err problem) e k = cc k
        done (ok c) e k =
            After-then parse_int o.kind (if name == o.name then some given else none)
              (last_given o.name pairs) (lookup o.name cells) (lookup o.name c)
              (lookup o.name cells') (flag_set-After parse_int options o name given cells c found e)
              (ih c k)

    undefined : (name : String) (p : Parsed) → undefined_flag parse_int name ≡ ok p → ⊥
    undefined name p h = ground arith

    last_flag :
        (fo : Option CliOption) (name : String) (value : Option String) (cells cells' : Cells)
        (left : List String) (next : Cells → Result Parsed)
        → ((c : Cells)
            → next c ≡ ok (cells', left)
            → After parse_int o.kind none (lookup o.name c) (lookup o.name cells'))
        → one_flag parse_int fo options cells name value none next ≡ ok (cells', left)
        → After parse_int o.kind
            (last_given o.name ((name, value_or_true parse_int value) ∷ []))
            (lookup o.name cells)
            (lookup o.name cells')
    last_flag none name value cells cells' left next ih h = absurd (undefined name (cells', left) h)
    last_flag (some p) name value cells cells' left next ih h =
        elim (Bool-cases (is_bool parse_int (some p))) [
          | inl bool ↦ set_then name _ cells cells' left [] next ih (rw bool at h)
          | inr other ↦ valued value (rw other at h)
        ]
      where
        valued :
            (w : Option String)
            → valued_flag parse_int options cells name w none next ≡ ok (cells', left)
            → After parse_int o.kind
                (last_given o.name ((name, value_or_true parse_int w) ∷ []))
                (lookup o.name cells)
                (lookup o.name cells')
        valued (some v) k = set_then name v cells cells' left [] next ih k
        valued none k = cc k

    next_flag :
        (fo : Option CliOption) (name : String) (value : Option String) (b : String)
        (cells cells' : Cells) (left : List String) (rest later : List (String × String))
        (go_on after : Cells → Result Parsed)
        → ((c : Cells)
            → go_on c ≡ ok (cells', left)
            → After parse_int o.kind
                (last_given o.name rest)
                (lookup o.name c)
                (lookup o.name cells'))
        → ((c : Cells)
            → after c ≡ ok (cells', left)
            → After parse_int o.kind
                (last_given o.name later)
                (lookup o.name c)
                (lookup o.name cells'))
        → one_flag parse_int fo options cells name value (some (b, after)) go_on ≡ ok (cells', left)
        → After parse_int o.kind
            (last_given o.name (assignment parse_int fo name value b rest later))
            (lookup o.name cells)
            (lookup o.name cells')
    next_flag none name value b cells cells' left rest later go_on after ih ih' h =
        absurd (undefined name (cells', left) h)
    next_flag (some p) name value b cells cells' left rest later go_on after ih ih' h =
        elim (Bool-cases (is_bool parse_int (some p))) [
          | inl bool ↦ as_bool value (rw bool at h) bool
          | inr other ↦ valued value (rw other at h) other
        ]
      where
        as_bool :
            (w : Option String)
            → (flag_set parse_int options name (value_or_true parse_int w) cells >>= go_on)
              ≡ ok (cells', left)
            → is_bool parse_int (some p) ≡ true
            → After parse_int o.kind
                (last_given o.name (assignment parse_int (some p) name w b rest later))
                (lookup o.name cells)
                (lookup o.name cells')
        as_bool (some v) k t = set_then name v cells cells' left rest go_on ih k
        as_bool none k t = rw t (set_then name "true" cells cells' left rest go_on ih k)

        valued :
            (w : Option String)
            → valued_flag parse_int options cells name w (some (b, after)) go_on ≡ ok (cells', left)
            → is_bool parse_int (some p) ≡ false
            → After parse_int o.kind
                (last_given o.name (assignment parse_int (some p) name w b rest later))
                (lookup o.name cells)
                (lookup o.name cells')
        valued (some v) k t = set_then name v cells cells' left rest go_on ih k
        valued none k t = rw t (set_then name b cells cells' left later after ih' k)

    kept :
        (cells cells' : Cells) (left left' : List String)
        → ◌≡◌ {A = Result Parsed} (ok (cells, left)) (ok (cells', left'))
        → lookup o.name cells' ≡ lookup o.name cells
    kept cells cells' left left' h =
        let pair : ◌≡◌ {A = Parsed} (cells, left) (cells', left') = cc h in
        ap (λ (p : Parsed). lookup o.name p.0) (sym pair)

    pub parse_args-After :
        (args : List String) (cells cells' : Cells) (left : List String)
        → parse_args parse_int options cells args ≡ ok (cells', left)
        → After parse_int o.kind
            (last_given o.name (assigned parse_int options args))
            (lookup o.name cells)
            (lookup o.name cells')
    unfolding parse_args
    parse_args-After [] cells cells' left h = kept cells cells' [] left h
    parse_args-After (a ∷ []) cells cells' left h = one (argument parse_int a) h
      where
        one :
            (k : Argument)
            → argument_then parse_int k
                (ok (cells, a ∷ []))
                (ok (cells, []))
                (bad_syntax parse_int a)
                (λ name value.
                  one_flag parse_int
                    (find_option parse_int name options)
                    options
                    cells
                    name
                    value
                    none
                    (λ c. parse_args parse_int options c []))
              ≡ ok (cells', left)
            → After parse_int o.kind
                (last_given o.name (
                  assigned_then parse_int k
                    λ name value. (name, value_or_true parse_int value) ∷ []))
                (lookup o.name cells)
                (lookup o.name cells')
        one operand e = kept cells cells' (a ∷ []) left e
        one terminator e = kept cells cells' [] left e
        one malformed_flag e = cc e
        one (flag_of name value) e =
            last_flag (find_option parse_int name options) name value cells cells' left _
              (λ c k. kept c cells' [] left k) e
    parse_args-After (a ∷ b ∷ args) cells cells' left h =
        two (argument parse_int a) (λ c k. parse_args-After (b ∷ args) c cells' left k)
          (λ c k. parse_args-After args c cells' left k) h
      where
        two :
            (k : Argument)
            → ((c : Cells)
                → parse_args parse_int options c (b ∷ args) ≡ ok (cells', left)
                → After parse_int o.kind
                    (last_given o.name (assigned parse_int options (b ∷ args)))
                    (lookup o.name c)
                    (lookup o.name cells'))
            → ((c : Cells)
                → parse_args parse_int options c args ≡ ok (cells', left)
                → After parse_int o.kind
                    (last_given o.name (assigned parse_int options args))
                    (lookup o.name c)
                    (lookup o.name cells'))
            → argument_then parse_int k
                (ok (cells, a ∷ b ∷ args))
                (ok (cells, b ∷ args))
                (bad_syntax parse_int a)
                (λ name value.
                  one_flag parse_int
                    (find_option parse_int name options)
                    options
                    cells
                    name
                    value
                    (some (b, λ c. parse_args parse_int options c args))
                    (λ c. parse_args parse_int options c (b ∷ args)))
              ≡ ok (cells', left)
            → After parse_int o.kind
                (last_given o.name (
                  assigned_then parse_int k λ name value.
                    assignment parse_int
                      (find_option parse_int name options)
                      name
                      value
                      b
                      (assigned parse_int options (b ∷ args))
                      (assigned parse_int options args)))
                (lookup o.name cells)
                (lookup o.name cells')
        two operand ih ih' e = kept cells cells' (a ∷ b ∷ args) left e
        two terminator ih ih' e = kept cells cells' (b ∷ args) left e
        two malformed_flag ih ih' e = cc e
        two (flag_of name value) ih ih' e =
            next_flag (find_option parse_int name options) name value b cells cells' left
              (assigned parse_int options (b ∷ args)) (assigned parse_int options args)
              (λ c. parse_args parse_int options c (b ∷ args))
              (λ c. parse_args parse_int options c args) ih ih' e
