-- ===== src/Daemon/Options.antt =====
-- Command lines made of the options that `main` knows.
use simple_snmpd.Base.{
  ◌≡◌, refl, Bool, true, false, ◌||◌, List, [], ◌∷◌, ◌++◌, append_assoc, Bytes, ap, ◌∙◌, arith,
}
use simple_snmpd.Base.Text.{chars}
use simple_snmpd.Daemon.{Settings, leave, is_option, classify, exits, parse_arguments}

-- An option that does not end the program.
pub data Flag : Type 0 where
  config : Bytes → Flag
  daemon foreground test_config verbose : Flag

abbrev pick : Bool → Bytes → Bytes → Bytes
pick true short long = long
pick false short long = short

-- An option in its long or its short spelling.
abbrev pub spell : Bool × Flag → List Bytes
spell (long, config path) = pick long (chars "-c") (chars "--config") ∷ path ∷ []
spell (long, daemon) = pick long (chars "-d") (chars "--daemon") ∷ []
spell (long, foreground) = pick long (chars "-f") (chars "--foreground") ∷ []
spell (long, test_config) = pick long (chars "-t") (chars "--test-config") ∷ []
spell (long, verbose) = pick long (chars "-v") (chars "--verbose") ∷ []

abbrev pub spell_all : List (Bool × Flag) → List Bytes
spell_all [] = []
spell_all (f ∷ fs) = spell f ++ spell_all fs

-- What the usage says of an option.
abbrev pub apply : Bool × Flag → Settings → Settings
apply (long, config path) s = record s { config_file = path }
apply (long, daemon) s = record s { daemon_mode = true }
apply (long, foreground) s = record s { daemon_mode = false }
apply (long, test_config) s = record s { test_config = true }
apply (long, verbose) s = record s { verbose = true }

abbrev pub apply_all : List (Bool × Flag) → Settings → Settings
apply_all [] s = s
apply_all (f ∷ fs) s = apply_all fs (apply f s)

spell-one :
    (f : Bool × Flag) (rest : List Bytes) (s : Settings)
    → parse_arguments false (spell f ++ rest) s ≡ parse_arguments false rest (apply f s)
unfolding parse_arguments classify
spell-one (true, config path) rest s = refl
spell-one (false, config path) rest s = refl
spell-one (true, daemon) rest s = refl
spell-one (false, daemon) rest s = refl
spell-one (true, foreground) rest s = refl
spell-one (false, foreground) rest s = refl
spell-one (true, test_config) rest s = refl
spell-one (false, test_config) rest s = refl
spell-one (true, verbose) rest s = refl
spell-one (false, verbose) rest s = refl

-- The options at the front are taken in order, in either spelling, each with the effect that the
-- usage names, and the rest of the command line is read on the settings that they left.
pub parse_arguments-spell_all :
    (fs : List (Bool × Flag)) (rest : List Bytes) (s : Settings)
    → parse_arguments false (spell_all fs ++ rest) s ≡ parse_arguments false rest (apply_all fs s)
parse_arguments-spell_all [] rest s = refl
parse_arguments-spell_all (f ∷ fs) rest s =
    ap (λ args. parse_arguments false args s) (append_assoc (spell f) (spell_all fs) rest)
    ∙ spell-one f (spell_all fs ++ rest) s
    ∙ parse_arguments-spell_all fs rest (apply f s)

-- The spellings of the options that `main` knows.
unfoldable pub is_known : Bytes → Bool
is_known arg =
    is_option (chars "-c") (chars "--config") arg
    || is_option (chars "-d") (chars "--daemon") arg
    || is_option (chars "-f") (chars "--foreground") arg
    || is_option (chars "-t") (chars "--test-config") arg
    || is_option (chars "-v") (chars "--verbose") arg
    || is_option (chars "-h") (chars "--help") arg
    || is_option (chars "-V") (chars "--version") arg

classify-unknown : (arg : Bytes) → is_known arg ≡ false → classify arg ≡ leave 1
unfolding is_known classify
classify-unknown arg h = ground arith

-- An argument that is none of the known spellings ends the program with exit code 1, behind any
-- options and whatever follows it.
pub parse_arguments-unknown :
    (fs : List (Bool × Flag)) (arg : Bytes) (rest : List Bytes) (s : Settings)
    → is_known arg ≡ false
    → parse_arguments false (spell_all fs ++ arg ∷ rest) s ≡ exits 1
unfolding parse_arguments
parse_arguments-unknown fs arg rest s h =
    parse_arguments-spell_all fs (arg ∷ rest) s ∙ rw (classify-unknown arg h, parse_arguments)
