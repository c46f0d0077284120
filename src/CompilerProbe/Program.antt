-- ===== src/CompilerProbe/Program.antt =====
-- CMakeCCompilerId.c: the texts of the program, and its `main`. `none` is a program that does not
-- compile, or, of `main`, a read past the end of a text.
use labs_spo.Common.{
  ℕ, ◌+◌, Bool, ◌||◌, List, [], ◌∷◌, ◌++◌, Option, none, some, if◌then◌else◌, get_elem?, ◌>>=◌,
}
use labs_spo.Common.Bytes.{Bytes, bytes}
use labs_spo.CompilerProbe.{Env, defined, Number, dec, hex, Version, Identity}
use labs_spo.CompilerProbe.Digits.{dec_digits, hex_digits}
use labs_spo.CompilerProbe.Families.{identity}
use labs_spo.CompilerProbe.Platforms.{platform_id, architecture_id, dialect}

unfoldable pub number_digits : Number → Option Bytes
number_digits (dec none) = none
number_digits (dec (some n)) = some (dec_digits n)
number_digits (hex none) = none
number_digits (hex (some n)) = some (hex_digits n)

-- The components that the nested `#ifdef`s leave: each only behind the one before it.
abbrev pub behind : Option Number → List Number → List Number
behind none rest = []
behind (some a) rest = a ∷ rest

abbrev pub parts : Version → List Number
parts v = behind v.major (behind v.minor (behind v.patch (behind v.tweak [])))

unfoldable pub all_digits : List Number → Option (List Bytes)
all_digits [] = some []
all_digits (a ∷ rest) = number_digits a >>= (λ d. all_digits rest >>= (λ ds. some (d ∷ ds)))

-- The components with '.' between them, and the end `']', '\0'`.
unfoldable pub dotted : List Bytes → Bytes
dotted [] = b']' ∷ 0 ∷ []
dotted (d ∷ []) = d ++ b']' ∷ 0 ∷ []
dotted (d ∷ e ∷ ds) = d ++ b'.' ∷ dotted (e ∷ ds)

-- An array that is there only if it has a first component.
unfoldable pub version_text : Bytes → List Number → Option (List Bytes)
version_text name [] = some []
version_text name (a ∷ rest) = all_digits (a ∷ rest) >>= (λ ds. some ((name ++ dotted ds) ∷ []))

abbrev pub version_name : Bytes
version_name = bytes "INFO:compiler_version["

abbrev pub internal_name : Bytes
internal_name = bytes "INFO:compiler_version_internal["

abbrev pub simulate_name : Bytes
simulate_name = bytes "INFO:simulate_version["

-- A string literal "INFO:name[text]".
abbrev pub literal : Bytes → Bytes → Bytes
literal name text = name ++ (text ++ b']' ∷ 0 ∷ [])

abbrev pub simulate_text : Option Bytes → List Bytes
simulate_text none = []
simulate_text (some name) = literal (bytes "INFO:simulate[") name ∷ []

abbrev pub cray_text : Bool → List Bytes
cray_text wrapped =
    if wrapped then literal (bytes "INFO:compiler_wrapper[") (bytes "CrayPrgEnv") ∷ [] else []

-- The texts behind those of the compiler and the platform, in the order in which `main` reads them,
-- given those of the versions and the name of the language.
abbrev pub behind_versions :
    Env → Identity → Bytes → List Bytes → List Bytes → List Bytes → List Bytes
behind_versions env d language version internal simulated =
    version
    ++ (internal
        ++ (simulate_text d.simulate_id
            ++ (simulated
                ++ (cray_text (defined env "__CRAYXE" || defined env "__CRAYXC")
                    ++ literal (bytes "INFO:dialect_default[") language ∷ []))))

abbrev pub in_order : Env → Identity → List Bytes → List Bytes → List Bytes → List Bytes
in_order env d version internal simulated =
    literal (bytes "INFO:compiler[") d.compiler_id
    ∷ literal (bytes "INFO:platform[") (platform_id env)
    ∷ literal (bytes "INFO:arch[") (architecture_id env)
    ∷ behind_versions env d (dialect env) version internal simulated

-- The texts of the versions, put in an order.
unfoldable pub version_texts :
    Identity → (List Bytes → List Bytes → List Bytes → List Bytes) → Option (List Bytes)
version_texts d order = version_text version_name (parts d.version) >>= (λ version.
    version_text internal_name (behind d.internal []) >>= (λ internal.
      version_text simulate_name (parts d.simulated)
      >>= (λ simulated. some (order version internal simulated))))

unfoldable pub texts_of : Env → Identity → Option (List Bytes)
unfolding version_texts
texts_of env d = version_texts d (in_order env d)

unfoldable pub texts : Env → Option (List Bytes)
unfolding texts_of
texts env = if defined env "__cplusplus" then none else texts_of env (identity env)

-- The body of `main`: the sum of the characters at `argc`.
unfoldable pub require : ℕ → List Bytes → Option ℕ
require argc [] = some 0
require argc (t ∷ ts) = get_elem? t argc >>= (λ c. require argc ts >>= (λ sum. some (c + sum)))
