-- ===== src/Config/DotEnv.antt =====
-- The .env file: loadDotEnv of internal/outboxer/dotenv.go.
use Prim.Native.Char.{Char, code}
use outboxer.Prelude.{
  ℕ, String, Bool, ◌||◌, Option, none, some, List, [], ◌∷◌, ◌++◌, ◌≡◌, refl, ◌∙◌, if◌then◌else◌,
  nat_beq, is_empty, codes, has_prefix, lookup, ◌==◌, string_eq, Bool-cases, inl, inr,
}
use outboxer.Config.Lists.{trim_space}

-- strings.Split at one character
abbrev first_longer : Char → List String → List String
first_longer c [] = String.◌∷◌ c "" ∷ []
first_longer c (part ∷ parts) = String.◌∷◌ c part ∷ parts

unfoldable pub lines : String → List String
lines String.[] = "" ∷ []
lines (String.◌∷◌ c s) =
    let rest = lines s in if nat_beq (code c) b'\n' then "" ∷ rest else first_longer c rest

-- strings.Cut at `=`
abbrev with_key : Char → Option (String × String) → Option (String × String)
with_key c none = none
with_key c (some (key, value)) = some (String.◌∷◌ c key, value)

unfoldable pub cut_equals : String → Option (String × String)
cut_equals String.[] = none
cut_equals (String.◌∷◌ c s) =
    let rest = cut_equals s in if nat_beq (code c) b'=' then some ("", s) else with_key c rest

-- strings.TrimPrefix with `export `
abbrev without : String → List ℕ → String
without s [] = s
without String.[] (p ∷ prefix) = ""
without (String.◌∷◌ c s) (p ∷ prefix) = without s prefix

abbrev without_export : String → String
without_export line =
    if has_prefix (codes "export ") (codes line) then without line (codes "export ") else line

abbrev is_comment : String → Bool
is_comment line = is_empty line || has_prefix (codes "#") (codes line)

-- `unquote` is strconv.Unquote, and `settable` whether os.Setenv takes a name and a value.
module _ (unquote : String → Option String) (settable : String → String → Bool) where
  abbrev unquoted : String → String
  unquoted value = elim (unquote value) [ some text ↦ text | none ↦ value ]

  abbrev keyed : String → String → Option (String × String)
  keyed key value =
      if is_empty key
      then none
      else if settable key (unquoted value)
      then some (key, unquoted value)
      else none

  abbrev assigned : Option (String × String) → Option (String × String)
  assigned none = none
  assigned (some (key, value)) = keyed (trim_space key) (trim_space value)

  -- The assignment that a line makes, if it makes one.
  unfoldable pub line_assignment : String → Option (String × String)
  unfolding trim_space cut_equals
  line_assignment line =
      if is_comment (trim_space line)
      then none
      else assigned (cut_equals (without_export (trim_space line)))

  abbrev set_new : Option (String × String) → List (String × String) → List (String × String)
  set_new none env = env
  set_new (some (key, value)) env = elim (lookup key env) [
    | some old ↦ env
    | none ↦ env ++ ((key, value) ∷ [])
  ]

  unfoldable pub load_lines : List String → List (String × String) → List (String × String)
  unfolding line_assignment lookup
  load_lines [] env = env
  load_lines (line ∷ rest) env = load_lines rest (set_new (line_assignment line) env)

  -- The file's content, unless it cannot be read.
  unfoldable pub load_dot_env : Option String → List (String × String) → List (String × String)
  unfolding load_lines lines
  load_dot_env none env = env
  load_dot_env (some content) env = load_lines (lines content) env

  -- The value that the first line that assigns a name gives it.
  abbrev pub first_assigned : String → List String → Option String
  first_assigned name [] = none
  first_assigned name (line ∷ rest) = elim (line_assignment line) [
    | none ↦ first_assigned name rest
    | some (key, value) ↦ if key == name then some value else first_assigned name rest
  ]

  abbrev pub or_else : Option String → Option String → Option String
  or_else (some value) other = some value
  or_else none other = other

  abbrev given : String → Option (String × String) → Option String
  given name none = none
  given name (some (key, value)) = if key == name then some value else none

  lookup-append :
      (name key value : String) (env : List (String × String))
      → lookup name (env ++ ((key, value) ∷ []))
        ≡ or_else (lookup name env) (given name (some (key, value)))
  unfolding lookup
  lookup-append name key value [] = refl
  lookup-append name key value ((k, v) ∷ env) = elim (Bool-cases (k == name)) [
    | inl found ↦ rw found refl
    | inr other ↦ rw other (lookup-append name key value env)
  ]

  lookup-set_new :
      (name : String) (a : Option (String × String)) (env : List (String × String))
      → lookup name (set_new a env) ≡ or_else (lookup name env) (given name a)
  lookup-set_new name none env = same (lookup name env)
    where
      same : (held : Option String) → held ≡ or_else held none
      same none = refl
      same (some v) = refl
  lookup-set_new name (some (key, value)) env = set (lookup key env) refl
    where
      set :
          (held : Option String)
          → lookup key env ≡ held
          → lookup name (elim held as (λ _. List (String × String)) [
            | some old ↦ env
            | none ↦ env ++ ((key, value) ∷ [])
          ])
            ≡ or_else (lookup name env) (given name (some (key, value)))
      set none h = lookup-append name key value env
      set (some old) h = elim (Bool-cases (key == name)) [
        | inl found ↦
            (let is : lookup name env ≡ some old = rw (← (string_eq.beq_iff key name).0 found) h in
              rw is refl)
        | inr other ↦ rw other (kept (lookup name env))
      ]
        where
          kept : (v : Option String) → v ≡ or_else v none
          kept none = refl
          kept (some v) = refl

  or_else-then :
      (a : Option String) (name : String) (b : Option (String × String)) (rest : Option String)
      → or_else (or_else a (given name b)) rest
        ≡ or_else a (elim b as (λ _. Option String) [
          | none ↦ rest
          | some (key, value) ↦ if key == name then some value else rest
        ])
  or_else-then (some v) name b rest = refl
  or_else-then none name none rest = refl
  or_else-then none name (some (key, value)) rest = elim (Bool-cases (key == name)) [
    | inl found ↦ rw found refl
    | inr other ↦ rw other refl
  ]

  lookup-load_lines :
      (name : String) (ls : List String) (env : List (String × String))
      → lookup name (load_lines ls env) ≡ or_else (lookup name env) (first_assigned name ls)
  unfolding load_lines
  lookup-load_lines name [] env = kept (lookup name env)
    where
      kept : (v : Option String) → v ≡ or_else v none
      kept none = refl
      kept (some v) = refl
  lookup-load_lines name (line ∷ rest) env =
      lookup-load_lines name rest (set_new (line_assignment line) env)
      ∙ rw (lookup-set_new name (line_assignment line) env)
          (or_else-then (lookup name env) name (line_assignment line) (first_assigned name rest))

  -- Beside the .env file, a variable that is set keeps its value, even an empty one; any other one
  -- has the value of the first line of the file that assigns it, or none.
  pub lookup-load_dot_env :
      (name content : String) (env : List (String × String))
      → lookup name (load_dot_env (some content) env)
        ≡ or_else (lookup name env) (first_assigned name (lines content))
  unfolding load_dot_env
  lookup-load_dot_env name content env = lookup-load_lines name (lines content) env
