-- ===== src/CompilerProbe/Platforms.antt =====
-- CMakeCCompilerId.c: the names of the platform, the architecture and the language.
use Prim.Native.String.{String}
use labs_spo.Common.{
  ℕ, suc, Bool, false, not, ◌&&◌, ◌||◌, List, [], ◌∷◌, ◌++◌, leb, ◌==◌, if◌then◌else◌,
}
use labs_spo.Common.Bytes.{Bytes, bytes}
use labs_spo.Common.Decimal.{digits}
use labs_spo.CompilerProbe.{Env, defined, value}

unfoldable pub any_defined : Env → List String → Bool
any_defined env [] = false
any_defined env (m ∷ ms) = defined env m || any_defined env ms

-- A chain of `#if defined(..) || ..`, each with the name that it defines, before an `#else`.
pub first_name : Env → List (List String × Bytes) → Bytes → Bytes
first_name env [] otherwise = otherwise
first_name env ((ms, name) ∷ rest) otherwise =
    let later = first_name env rest otherwise in if any_defined env ms then name else later

-- PLATFORM_ID; an `#else` that defines it as nothing gives no bytes.
abbrev watcom_platforms : List (List String × Bytes)
watcom_platforms =
    (("__LINUX__" ∷ []), bytes "Linux")
    ∷ (("__DOS__" ∷ []), bytes "DOS")
    ∷ (("__OS2__" ∷ []), bytes "OS2")
    ∷ (("__WINDOWS__" ∷ []), bytes "Windows3x")
    ∷ []

abbrev platforms : List (List String × Bytes)
platforms =
    (("__linux" ∷ "__linux__" ∷ "linux" ∷ []), bytes "Linux")
    ∷ (("__CYGWIN__" ∷ []), bytes "Cygwin")
    ∷ (("__MINGW32__" ∷ []), bytes "MinGW")
    ∷ (("__APPLE__" ∷ []), bytes "Darwin")
    ∷ (("_WIN32" ∷ "__WIN32__" ∷ "WIN32" ∷ []), bytes "Windows")
    ∷ (("__FreeBSD__" ∷ "__FreeBSD" ∷ []), bytes "FreeBSD")
    ∷ (("__NetBSD__" ∷ "__NetBSD" ∷ []), bytes "NetBSD")
    ∷ (("__OpenBSD__" ∷ "__OPENBSD" ∷ []), bytes "OpenBSD")
    ∷ (("__sun" ∷ "sun" ∷ []), bytes "SunOS")
    ∷ (("_AIX" ∷ "__AIX" ∷ "__AIX__" ∷ "__aix" ∷ "__aix__" ∷ []), bytes "AIX")
    ∷ (("__hpux" ∷ "__hpux__" ∷ []), bytes "HP-UX")
    ∷ (("__HAIKU__" ∷ []), bytes "Haiku")
    ∷ (("__BeOS" ∷ "__BEOS__" ∷ "_BEOS" ∷ []), bytes "BeOS")
    ∷ (("__QNX__" ∷ "__QNXNTO__" ∷ []), bytes "QNX")
    ∷ (("__tru64" ∷ "_tru64" ∷ "__TRU64__" ∷ []), bytes "Tru64")
    ∷ (("__riscos" ∷ "__riscos__" ∷ []), bytes "RISCos")
    ∷ (("__sinix" ∷ "__sinix__" ∷ "__SINIX__" ∷ []), bytes "SINIX")
    ∷ (("__UNIX_SV__" ∷ []), bytes "UNIX_SV")
    ∷ (("__bsdos__" ∷ []), bytes "BSDOS")
    ∷ (("_MPRAS" ∷ "MPRAS" ∷ []), bytes "MP-RAS")
    ∷ (("__osf" ∷ "__osf__" ∷ []), bytes "OSF1")
    ∷ (("_SCO_SV" ∷ "SCO_SV" ∷ "sco_sv" ∷ []), bytes "SCO_SV")
    ∷ (("__ultrix" ∷ "__ultrix__" ∷ "_ULTRIX" ∷ []), bytes "ULTRIX")
    ∷ (("__XENIX__" ∷ "_XENIX" ∷ "XENIX" ∷ []), bytes "Xenix")
    ∷ []

pub platform_id : Env → Bytes
unfolding first_name any_defined
platform_id env = first_name env platforms (
    if defined env "__WATCOMC__"
    then first_name env watcom_platforms []
    else if defined env "__INTEGRITY"
    then (if defined env "INT_178B" then bytes "Integrity178" else bytes "Integrity")
    else [])

-- ARCHITECTURE_ID: of a Windows compiler, by the version of ARM where it has one; `STRINGIFY` gives
-- the digits of the macro.
abbrev arm_name : ℕ → Bytes
arm_name version =
    if version == 4
    then bytes "ARMV4I"
    else if version == 5
    then bytes "ARMV5I"
    else bytes "ARMV" ++ digits (suc version) version

abbrev windows_architecture : Env → Bytes
windows_architecture env =
    first_name env
      ((("_M_IA64" ∷ []), bytes "IA64")
        ∷ (("_M_X64" ∷ "_M_AMD64" ∷ []), bytes "x64")
        ∷ (("_M_IX86" ∷ []), bytes "X86")
        ∷ (("_M_ARM64" ∷ []), bytes "ARM64")
        ∷ (("_M_ARM" ∷ []), arm_name (value env "_M_ARM"))
        ∷ (("_M_MIPS" ∷ []), bytes "MIPS")
        ∷ (("_M_SH" ∷ []), bytes "SHx")
        ∷ [])
      []

abbrev watcom_architecture : Env → Bytes
watcom_architecture env =
    first_name env ((("_M_I86" ∷ []), bytes "I86") ∷ (("_M_IX86" ∷ []), bytes "X86") ∷ []) []

abbrev iar_architecture : Env → Bytes
iar_architecture env =
    first_name env
      ((("__ICCARM__" ∷ []), bytes "ARM")
        ∷ (("__ICCRX__" ∷ []), bytes "RX")
        ∷ (("__ICCRH850__" ∷ []), bytes "RH850")
        ∷ (("__ICCRL78__" ∷ []), bytes "RL78")
        ∷ (("__ICCRISCV__" ∷ []), bytes "RISCV")
        ∷ (("__ICCAVR__" ∷ []), bytes "AVR")
        ∷ (("__ICC430__" ∷ []), bytes "MSP430")
        ∷ (("__ICCV850__" ∷ []), bytes "V850")
        ∷ (("__ICC8051__" ∷ []), bytes "8051")
        ∷ [])
      []

abbrev ghs_architecture : Env → Bytes
ghs_architecture env =
    first_name env
      ((("__PPC64__" ∷ []), bytes "PPC64")
        ∷ (("__ppc__" ∷ []), bytes "PPC")
        ∷ (("__ARM__" ∷ []), bytes "ARM")
        ∷ (("__x86_64__" ∷ []), bytes "x64")
        ∷ (("__i386__" ∷ []), bytes "X86")
        ∷ [])
      []

pub architecture_id : Env → Bytes
unfolding first_name any_defined
architecture_id env =
    if defined env "_WIN32" && defined env "_MSC_VER"
    then windows_architecture env
    else first_name env
        ((("__WATCOMC__" ∷ []), watcom_architecture env)
          ∷ (("__IAR_SYSTEMS_ICC__" ∷ "__IAR_SYSTEMS_ICC" ∷ []), iar_architecture env)
          ∷ (("__ghs__" ∷ []), ghs_architecture env)
          ∷ [])
        []

-- C_DIALECT
pub dialect : Env → Bytes
dialect env =
    if not (defined env "__STDC__")
    then (if (defined env "_MSC_VER" && not (defined env "__clang__"))
          || (defined env "__ibmxl__" || defined env "__IBMC__")
        then bytes "90"
        else [])
    else if leb 201000 (value env "__STDC_VERSION__")
    then bytes "11"
    else if leb 199901 (value env "__STDC_VERSION__")
    then bytes "99"
    else bytes "90"
