-- ===== src/Secrets/Loaded.antt =====
-- What src/config/secrets.go reads from an environment file.
use mathlib.Core.List.{map, append_assoc}
use bincrypt.Prelude.{
  ℕ, ◌≡◌, refl, ◌∙◌, ap, true, false, ◌==◌, List, [], ◌∷◌, ◌++◌, Option, none, some, Bytes, arith,
  all, All, is_empty, if◌then◌else◌,
}
use bincrypt.Storage.{ok, err}
use bincrypt.Text.{has_prefix, join, cut, is_space, trim_left, trim_space}
use bincrypt.Text.Split.{lacks, lacks-append, split-join, cut-first, trim_right-end}
use bincrypt.Base64.Identifier.{is_id_char}
use bincrypt.Validation.Bounds.{id_char_plain, trim_left-id, trim_right-id}
use bincrypt.Secrets.{
  Variable, set_env, get_env, last_byte, but_last, unquote, assignment, set_parsed, parse_line,
  load_lines, load_env_file, File, file, SecretError, load_secrets, choose_env_file, initialize,
  get_secret,
}

-- A variable that can be written as a line: its name has letters, digits, - and _ only, and its value
-- no line feed.
pub record IsEntry (v : Variable) : Type 0 where
  pub named : is_empty v.name ≡ false
  pub plain : all is_id_char v.name ≡ true
  pub one_line : lacks b'\n' v.value ≡ true

-- NAME="value", whatever quotes, spaces and signs the value has.
abbrev pub line_of : Variable → Bytes
line_of v = v.name ++ b'=' ∷ b'"' ∷ v.value ++ b'"' ∷ []

id_char_lacks :
    (c : ℕ)
    → is_id_char c ≡ true
    → ((c == b'=') ≡ false) × ((c == b'\n') ≡ false) × ((c == b'#') ≡ false) × ((c == 0) ≡ false)
unfolding is_id_char
id_char_lacks c h = (ground arith, ground arith, ground arith, ground arith)

name_lacks : (s : Bytes) → all is_id_char s ≡ true → (lacks b'=' s ≡ true) × (lacks b'\n' s ≡ true)
name_lacks [] h = (refl, refl)
name_lacks (c ∷ s) h =
    (ground (arith, id_char_lacks c, name_lacks s), ground (arith, id_char_lacks c, name_lacks s))

last_byte-end : (d : ℕ) (s : Bytes) (c : ℕ) → last_byte d (s ++ c ∷ []) ≡ c
unfolding last_byte
last_byte-end d [] c = refl
last_byte-end d (e ∷ s) c = last_byte-end e s c

but_last-end : (d : ℕ) (s : Bytes) (c : ℕ) → but_last d (s ++ c ∷ []) ≡ d ∷ s
unfolding but_last
but_last-end d [] c = refl
but_last-end d (e ∷ s) c = ap (λ (r : Bytes). d ∷ r) (but_last-end e s c)

unquote-quoted : (value : Bytes) → unquote (b'"' ∷ value ++ b'"' ∷ []) ≡ value
unfolding unquote last_byte but_last
unquote-quoted [] = refl
unquote-quoted (d ∷ s) = ground (arith, last_byte-end d s b'"', but_last-end d s b'"')

trim_space-quoted :
    (value : Bytes) → trim_space (b'"' ∷ value ++ b'"' ∷ []) ≡ b'"' ∷ value ++ b'"' ∷ []
unfolding trim_space trim_left is_space
trim_space-quoted value = trim_right-end (b'"' ∷ value) b'"' refl

trim_space-line :
    (c : ℕ) (name value : Bytes)
    → is_id_char c ≡ true
    → trim_space (c ∷ name ++ b'=' ∷ b'"' ∷ value ++ b'"' ∷ [])
      ≡ c ∷ name ++ b'=' ∷ b'"' ∷ value ++ b'"' ∷ []
unfolding trim_space trim_left
trim_space-line c name value h =
    rw ((id_char_plain c h).1) (trim_right-end (c ∷ name ++ b'=' ∷ b'"' ∷ value) b'"' refl)

trim_space-name : (s : Bytes) → all is_id_char s ≡ true → trim_space s ≡ s
unfolding trim_space
trim_space-name s h = rw (trim_left-id s h) (trim_right-id s h)

cut-line :
    (name value : Bytes)
    → lacks b'=' name ≡ true
    → cut b'=' (name ++ b'=' ∷ b'"' ∷ value ++ b'"' ∷ []) ≡ (name, some (b'"' ∷ value ++ b'"' ∷ []))
cut-line name value h =
    rw (append_assoc name (b'=' ∷ b'"' ∷ value) (b'"' ∷ []))
      (cut-first b'=' name (b'"' ∷ value ++ b'"' ∷ []) h)

parse_line-line_of :
    (name value : Bytes)
    → is_empty name ≡ false
    → all is_id_char name ≡ true
    → parse_line (name ++ b'=' ∷ b'"' ∷ value ++ b'"' ∷ []) ≡ some (name, value)
unfolding parse_line assignment has_prefix
parse_line-line_of [] value e h = cc
parse_line-line_of (c ∷ s) value e h =
    let first : is_id_char c ≡ true = ground arith in
    let (_, _, mark, _) = id_char_lacks c first in
    rw
      (
        trim_space-line c s value first,
        mark,
        cut-line (c ∷ s) value (name_lacks (c ∷ s) h).0,
        trim_space-name (c ∷ s) h,
        trim_space-quoted value,
        unquote-quoted value,
      )
      refl

-- What the lines set, one after the other.
abbrev pub set_all : List Variable → List Variable → List Variable
set_all [] env = env
set_all (v ∷ vs) env = set_all vs (set_env v.name v.value env)

load_lines-lines :
    (vs env : List Variable) → All IsEntry vs → load_lines (map line_of vs) env ≡ set_all vs env
unfolding load_lines set_parsed
load_lines-lines [] env h = refl
load_lines-lines (v ∷ vs) env (e, h) =
    ap (λ (a : Option (Bytes × Bytes)). load_lines (map line_of vs) (set_parsed a env))
      (parse_line-line_of v.name v.value e.named e.plain)
    ∙ load_lines-lines vs (set_env v.name v.value env) h

line_lacks : (v : Variable) → IsEntry v → lacks b'\n' (line_of v) ≡ true
line_lacks v e =
    lacks-append b'\n' (v.name ++ b'=' ∷ b'"' ∷ v.value) (b'"' ∷ [])
      (lacks-append b'\n' v.name (b'=' ∷ b'"' ∷ v.value) (name_lacks v.name e.plain).1 e.one_line)
      refl

lines_lack :
    (vs : List Variable)
    → All IsEntry vs
    → All (λ (s : Bytes). lacks b'\n' s ≡ true) (map line_of vs)
lines_lack [] h = tt
lines_lack (v ∷ vs) (e, h) = (line_lacks v e, lines_lack vs h)

-- The text of an environment file.
abbrev pub print_env : List Variable → Bytes
print_env vs = join b'\n' (map line_of vs)

load_env_file-print_env :
    (v : Variable) (vs env : List Variable)
    → All IsEntry (v ∷ vs)
    → load_env_file (print_env (v ∷ vs)) env ≡ set_all (v ∷ vs) env
unfolding load_env_file
load_env_file-print_env v vs env h =
    rw (split-join b'\n' (line_of v) (map line_of vs) (lines_lack (v ∷ vs) h))
      (load_lines-lines (v ∷ vs) env h)

-- If the environment file that Initialize settles on can be read and consists of lines NAME="value",
-- one for each of one or more variables, with a line feed between two of them and no other line or
-- final line feed, their names of letters, digits, - and _ and their values without a line feed, then
-- after Initialize, with no provider before, the environment has these variables set one after
-- the other on top of what it had; GetSecret of any key answers with its value there, or with an error if
-- that is empty; and neither another Initialize nor GetSecret changes anything.
pub initialize-get_secret :
    (files : Bytes → File) (parent : Bytes → Bytes) (v : Variable) (vs env : List Variable)
    (key : Bytes)
    → All IsEntry (v ∷ vs)
    → files (choose_env_file files parent env) ≡ file (print_env (v ∷ vs))
    → is_empty (choose_env_file files parent env) ≡ false
    → let c = initialize files parent (record { provider = none; env = env }) in
      (c.env ≡ set_all (v ∷ vs) env)
      × (get_secret files parent key c ≡ (
        (if is_empty (get_env key (set_all (v ∷ vs) env))
            then err SecretError.not_in_environment
            else ok (get_env key (set_all (v ∷ vs) env))),
        c,
      ))
      × (initialize files parent c ≡ c)
unfolding initialize get_secret load_secrets
initialize-get_secret files parent v vs env key h found named =
    let loaded = load_env_file-print_env v vs env h in rw (named, found, loaded) (refl, refl, refl)
