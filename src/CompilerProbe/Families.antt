-- ===== src/CompilerProbe/Families.antt =====
-- CMakeCCompilerId.c: the chain of compilers, from ARM to the guess by platform, and the chain as a
-- whole.
use labs_spo.Common.{
  ◌-◌, ◌*◌, ◌/◌, ◌%◌, ◌^◌, Bool, not, ◌&&◌, ◌||◌, List, [], ◌∷◌, ◌++◌, Option, none, some, leb,
  if◌then◌else◌,
}
use labs_spo.Common.Bytes.{Bytes, bytes}
use labs_spo.CompilerProbe.{
  Env, defined, value, with_macro, Number, dec, hex, Version, Identity, no_version, plain, three,
  only_if, Branch,
}
use labs_spo.CompilerProbe.Vendors.{
  intel, path_scale, embarcadero, borland, watcom, open_watcom, sun_pro, hewlett_packard, compaq,
  z_os, xl_clang, xl, visual_age, pgi, cray, texas_instruments, fujitsu, green_hills, tiny_c, bruce,
  sco,
}

unfoldable pub arm_cc : Branch
arm_cc = record {
  test = λ env. defined env "__ARMCC_VERSION" && not (defined env "__clang__");
  defines = λ env. plain (bytes "ARMCC") (
      if leb 1000000 (value env "__ARMCC_VERSION")
      then three (dec (with_macro env "__ARMCC_VERSION" (λ n. n / 1000000)))
          (dec (with_macro env "__ARMCC_VERSION" (λ n. n / 10000 % 100)))
          (dec (with_macro env "__ARMCC_VERSION" (λ n. n % 10000)))
      else three (dec (with_macro env "__ARMCC_VERSION" (λ n. n / 100000)))
          (dec (with_macro env "__ARMCC_VERSION" (λ n. n / 10000 % 10)))
          (dec (with_macro env "__ARMCC_VERSION" (λ n. n % 10000))));
}

-- What a Clang says of itself, and of the MSVC that it may stand in for.
abbrev clang_identity : Env → Bytes → Option Number → Identity
clang_identity env name tweak = record {
  compiler_id = name;
  simulate_id = only_if (defined env "_MSC_VER") (bytes "MSVC");
  version = record {
    major = some (dec (env "__clang_major__"));
    minor = some (dec (env "__clang_minor__"));
    patch = some (dec (env "__clang_patchlevel__"));
    tweak = tweak;
  };
  internal = none;
  simulated = record {
    major = only_if (defined env "_MSC_VER") (dec (with_macro env "_MSC_VER" (λ n. n / 100)));
    minor = only_if (defined env "_MSC_VER") (dec (with_macro env "_MSC_VER" (λ n. n % 100)));
    patch = none;
    tweak = none;
  };
}

unfoldable pub apple_clang : Branch
apple_clang = record {
  test = λ env. defined env "__clang__" && defined env "__apple_build_version__";
  defines =
      λ env. clang_identity env (bytes "AppleClang") (some (dec (env "__apple_build_version__")));
}

unfoldable pub arm_clang : Branch
arm_clang = record {
  test = λ env. defined env "__clang__" && defined env "__ARMCOMPILER_VERSION";
  defines = λ env.
      record (plain (bytes "ARMClang") (
        three (dec (with_macro env "__ARMCOMPILER_VERSION" (λ n. n / 1000000)))
          (dec (with_macro env "__ARMCOMPILER_VERSION" (λ n. n / 10000 % 100)))
          (dec (with_macro env "__ARMCOMPILER_VERSION" (λ n. n % 10000))))) {
            internal = some (dec (env "__ARMCOMPILER_VERSION"));
          };
}

unfoldable pub clang : Branch
clang = record {
  test = λ env. defined env "__clang__";
  defines = λ env. clang_identity env (bytes "Clang") none;
}

unfoldable pub gnu : Branch
gnu = record {
  test = λ env. defined env "__GNUC__";
  defines = λ env. plain (bytes "GNU") (record {
    major = some (dec (env "__GNUC__"));
    minor = only_if (defined env "__GNUC_MINOR__") (dec (env "__GNUC_MINOR__"));
    patch = only_if (defined env "__GNUC_PATCHLEVEL__") (dec (env "__GNUC_PATCHLEVEL__"));
    tweak = none;
  });
}

unfoldable pub msvc : Branch
msvc = record {
  test = λ env. defined env "_MSC_VER";
  defines = λ env. plain (bytes "MSVC") (record {
    major = some (dec (with_macro env "_MSC_VER" (λ n. n / 100)));
    minor = some (dec (with_macro env "_MSC_VER" (λ n. n % 100)));
    patch = only_if (defined env "_MSC_FULL_VER") (
        if leb 1400 (value env "_MSC_VER")
        then dec (with_macro env "_MSC_FULL_VER" (λ n. n % 100000))
        else dec (with_macro env "_MSC_FULL_VER" (λ n. n % 10000)));
    tweak = only_if (defined env "_MSC_BUILD") (dec (env "_MSC_BUILD"));
  });
}

unfoldable pub analog_devices : Branch
analog_devices = record {
  test = λ env.
      defined env "__VISUALDSPVERSION__"
      || (defined env "__ADSPBLACKFIN__"
          || (defined env "__ADSPTS__" || defined env "__ADSP21000__"));
  defines = λ env. plain (bytes "ADSP") (
      if defined env "__VISUALDSPVERSION__"
      then three (hex (with_macro env "__VISUALDSPVERSION__" (λ n. n / 2 ^ 24)))
          (hex (with_macro env "__VISUALDSPVERSION__" (λ n. n / 2 ^ 16 % 2 ^ 8)))
          (hex (with_macro env "__VISUALDSPVERSION__" (λ n. n / 2 ^ 8 % 2 ^ 8)))
      else no_version);
}

-- The processors of the second group of IAR compilers.
abbrev iar_group : Env → Bool
iar_group env =
    defined env "__ICCAVR__"
    || (defined env "__ICCRX__"
        || (defined env "__ICCRH850__"
            || (defined env "__ICCRL78__"
                || (defined env "__ICC430__"
                    || (defined env "__ICCRISCV__"
                        || (defined env "__ICCV850__" || defined env "__ICC8051__"))))))

abbrev iar_version : Env → Version
iar_version env =
    if defined env "__VER__" && defined env "__ICCARM__"
    then three (dec (with_macro env "__VER__" (λ n. n / 1000000)))
        (dec (with_macro env "__VER__" (λ n. n / 1000 % 1000)))
        (dec (with_macro env "__VER__" (λ n. n % 1000)))
    else if defined env "__VER__" && iar_group env
    then three (dec (with_macro env "__VER__" (λ n. n / 100)))
        (dec (with_macro env "__VER__" (λ n. n - n / 100 * 100))) (dec (env "__SUBVERSION__"))
    else no_version

unfoldable pub iar : Branch
iar = record {
  test = λ env. defined env "__IAR_SYSTEMS_ICC__" || defined env "__IAR_SYSTEMS_ICC";
  defines = λ env. record (plain (bytes "IAR") (iar_version env)) {
    internal =
        only_if (defined env "__VER__" && (defined env "__ICCARM__" || iar_group env))
          (dec (env "__IAR_SYSTEMS_ICC__"));
  };
}

unfoldable pub small_device_c : Branch
small_device_c = record {
  test = λ env. defined env "__SDCC_VERSION_MAJOR" || defined env "SDCC";
  defines = λ env. plain (bytes "SDCC") (
      if defined env "__SDCC_VERSION_MAJOR"
      then three (dec (env "__SDCC_VERSION_MAJOR")) (dec (env "__SDCC_VERSION_MINOR"))
          (dec (env "__SDCC_VERSION_PATCH"))
      else three (dec (with_macro env "SDCC" (λ n. n / 100)))
          (dec (with_macro env "SDCC" (λ n. n / 10 % 10)))
          (dec (with_macro env "SDCC" (λ n. n % 10))));
}

unfoldable pub guessed : Branch
guessed = record {
  test = λ env. defined env "__hpux" || defined env "__hpua";
  defines = λ env. plain (bytes "HP") no_version;
}

-- The conditions that come before `gnu`, and those that come after it.
unfoldable pub before_gnu : List Branch
before_gnu =
    intel ∷ path_scale ∷ embarcadero ∷ borland ∷ watcom ∷ open_watcom ∷ sun_pro ∷ hewlett_packard
    ∷ compaq ∷ z_os ∷ xl_clang ∷ xl ∷ visual_age ∷ pgi ∷ cray ∷ texas_instruments ∷ fujitsu
    ∷ green_hills ∷ tiny_c ∷ bruce ∷ sco ∷ arm_cc ∷ apple_clang ∷ arm_clang ∷ clang ∷ []

unfoldable pub after_gnu : List Branch
after_gnu = msvc ∷ analog_devices ∷ iar ∷ small_device_c ∷ guessed ∷ []

-- The first branch whose condition holds, or the `#else` of the chain.
unfoldable pub select : List Branch → Env → Identity
select [] env = plain [] no_version
select (b ∷ bs) env = let rest = select bs env in if b.test env then b.defines env else rest

unfoldable pub identity : Env → Identity
identity env = select (before_gnu ++ gnu ∷ after_gnu) env
