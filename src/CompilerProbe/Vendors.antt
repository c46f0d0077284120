-- ===== src/CompilerProbe/Vendors.antt =====
-- CMakeCCompilerId.c: the chain of compilers, from Intel to SCO.
use labs_spo.Common.{ℕ, ◌-◌, ◌/◌, ◌%◌, ◌^◌, not, ◌&&◌, ◌||◌, none, some, ltb, leb, if◌then◌else◌}
use labs_spo.Common.Bytes.{bytes}
use labs_spo.CompilerProbe.{
  Env, defined, value, with_macro, dec, hex, Version, no_version, plain, three, only_if, Branch,
}

-- The later of two definitions of a macro counts.
unfoldable pub intel : Branch
intel = record {
  test = λ env. defined env "__INTEL_COMPILER" || defined env "__ICC";
  defines = λ env. record {
    compiler_id = bytes "Intel";
    simulate_id =
        if defined env "__GNUC__"
        then some (bytes "GNU")
        else only_if (defined env "_MSC_VER") (bytes "MSVC");
    version = record {
      major = some (dec (with_macro env "__INTEL_COMPILER" (λ n. n / 100)));
      minor = some (dec (with_macro env "__INTEL_COMPILER" (λ n. n / 10 % 10)));
      patch =
          if defined env "__INTEL_COMPILER_UPDATE"
          then some (dec (env "__INTEL_COMPILER_UPDATE"))
          else some (dec (with_macro env "__INTEL_COMPILER" (λ n. n % 10)));
      tweak =
          only_if (defined env "__INTEL_COMPILER_BUILD_DATE")
            (dec (env "__INTEL_COMPILER_BUILD_DATE"));
    };
    internal = none;
    simulated = record {
      major =
          if defined env "__GNUC__"
          then some (dec (env "__GNUC__"))
          else if defined env "__GNUG__"
          then some (dec (env "__GNUG__"))
          else only_if (defined env "_MSC_VER") (dec (with_macro env "_MSC_VER" (λ n. n / 100)));
      minor =
          if defined env "__GNUC_MINOR__"
          then some (dec (env "__GNUC_MINOR__"))
          else only_if (defined env "_MSC_VER") (dec (with_macro env "_MSC_VER" (λ n. n % 100)));
      patch = only_if (defined env "__GNUC_PATCHLEVEL__") (dec (env "__GNUC_PATCHLEVEL__"));
      tweak = none;
    };
  };
}

unfoldable pub path_scale : Branch
path_scale = record {
  test = λ env. defined env "__PATHCC__";
  defines = λ env. plain (bytes "PathScale") (record {
    major = some (dec (env "__PATHCC__"));
    minor = some (dec (env "__PATHCC_MINOR__"));
    patch = only_if (defined env "__PATHCC_PATCHLEVEL__") (dec (env "__PATHCC_PATCHLEVEL__"));
    tweak = none;
  });
}

unfoldable pub embarcadero : Branch
embarcadero = record {
  test = λ env. defined env "__BORLANDC__" && defined env "__CODEGEARC_VERSION__";
  defines = λ env. plain (bytes "Embarcadero") (
      three (hex (with_macro env "__CODEGEARC_VERSION__" (λ n. n / 2 ^ 24 % 2 ^ 8)))
        (hex (with_macro env "__CODEGEARC_VERSION__" (λ n. n / 2 ^ 16 % 2 ^ 8)))
        (dec (with_macro env "__CODEGEARC_VERSION__" (λ n. n % 2 ^ 16))));
}

unfoldable pub borland : Branch
borland = record {
  test = λ env. defined env "__BORLANDC__";
  defines = λ env. plain (bytes "Borland") (record {
    major = some (hex (with_macro env "__BORLANDC__" (λ n. n / 2 ^ 8)));
    minor = some (hex (with_macro env "__BORLANDC__" (λ n. n % 2 ^ 8)));
    patch = none;
    tweak = none;
  });
}

-- The components that both branches of Watcom define alike.
abbrev watcom_version : Env → (ℕ → ℕ) → Version
watcom_version env major = record {
  major = some (dec (with_macro env "__WATCOMC__" major));
  minor = some (dec (with_macro env "__WATCOMC__" (λ n. n / 10 % 10)));
  patch =
      only_if (ltb 0 (value env "__WATCOMC__" % 10))
        (dec (with_macro env "__WATCOMC__" (λ n. n % 10)));
  tweak = none;
}

unfoldable pub watcom : Branch
watcom = record {
  test = λ env. defined env "__WATCOMC__" && ltb (value env "__WATCOMC__") 1200;
  defines = λ env. plain (bytes "Watcom") (watcom_version env (λ n. n / 100));
}

unfoldable pub open_watcom : Branch
open_watcom = record {
  test = λ env. defined env "__WATCOMC__";
  defines = λ env. plain (bytes "OpenWatcom") (watcom_version env (λ n. (n - 1100) / 100));
}

unfoldable pub sun_pro : Branch
sun_pro = record {
  test = λ env. defined env "__SUNPRO_C";
  defines = λ env. plain (bytes "SunPro") (
      if leb 0x5100 (value env "__SUNPRO_C")
      then three (hex (with_macro env "__SUNPRO_C" (λ n. n / 2 ^ 12)))
          (hex (with_macro env "__SUNPRO_C" (λ n. n / 2 ^ 4 % 2 ^ 8)))
          (hex (with_macro env "__SUNPRO_C" (λ n. n % 2 ^ 4)))
      else three (hex (with_macro env "__SUNPRO_C" (λ n. n / 2 ^ 8)))
          (hex (with_macro env "__SUNPRO_C" (λ n. n / 2 ^ 4 % 2 ^ 4)))
          (hex (with_macro env "__SUNPRO_C" (λ n. n % 2 ^ 4))));
}

unfoldable pub hewlett_packard : Branch
hewlett_packard = record {
  test = λ env. defined env "__HP_cc";
  defines = λ env. plain (bytes "HP") (
      three (dec (with_macro env "__HP_cc" (λ n. n / 10000)))
        (dec (with_macro env "__HP_cc" (λ n. n / 100 % 100)))
        (dec (with_macro env "__HP_cc" (λ n. n % 100))));
}

unfoldable pub compaq : Branch
compaq = record {
  test = λ env. defined env "__DECC";
  defines = λ env. plain (bytes "Compaq") (
      three (dec (with_macro env "__DECC_VER" (λ n. n / 10000000)))
        (dec (with_macro env "__DECC_VER" (λ n. n / 100000 % 100)))
        (dec (with_macro env "__DECC_VER" (λ n. n % 10000))));
}

-- A version in one decimal macro: hundreds, tens and ones.
abbrev hundreds : Env → Version
hundreds env =
    three (dec (with_macro env "__IBMC__" (λ n. n / 100)))
      (dec (with_macro env "__IBMC__" (λ n. n / 10 % 10)))
      (dec (with_macro env "__IBMC__" (λ n. n % 10)))

unfoldable pub z_os : Branch
z_os = record {
  test = λ env. defined env "__IBMC__" && defined env "__COMPILER_VER__";
  defines = λ env. plain (bytes "zOS") (hundreds env);
}

unfoldable pub xl_clang : Branch
xl_clang = record {
  test = λ env. defined env "__ibmxl__" && defined env "__clang__";
  defines = λ env. plain (bytes "XLClang") (record {
    major = some (dec (env "__ibmxl_version__"));
    minor = some (dec (env "__ibmxl_release__"));
    patch = some (dec (env "__ibmxl_modification__"));
    tweak = some (dec (env "__ibmxl_ptf_fix_level__"));
  });
}

unfoldable pub xl : Branch
xl = record {
  test = λ env.
      defined env "__IBMC__"
      && (not (defined env "__COMPILER_VER__") && leb 800 (value env "__IBMC__"));
  defines = λ env. plain (bytes "XL") (hundreds env);
}

unfoldable pub visual_age : Branch
visual_age = record {
  test = λ env.
      defined env "__IBMC__"
      && (not (defined env "__COMPILER_VER__") && ltb (value env "__IBMC__") 800);
  defines = λ env. plain (bytes "VisualAge") (hundreds env);
}

unfoldable pub pgi : Branch
pgi = record {
  test = λ env. defined env "__PGI";
  defines = λ env. plain (bytes "PGI") (record {
    major = some (dec (env "__PGIC__"));
    minor = some (dec (env "__PGIC_MINOR__"));
    patch = only_if (defined env "__PGIC_PATCHLEVEL__") (dec (env "__PGIC_PATCHLEVEL__"));
    tweak = none;
  });
}

unfoldable pub cray : Branch
cray = record {
  test = λ env. defined env "_CRAYC";
  defines = λ env. plain (bytes "Cray") (record {
    major = some (dec (env "_RELEASE_MAJOR"));
    minor = some (dec (env "_RELEASE_MINOR"));
    patch = none;
    tweak = none;
  });
}

unfoldable pub texas_instruments : Branch
texas_instruments = record {
  test = λ env. defined env "__TI_COMPILER_VERSION__";
  defines = λ env. plain (bytes "TI") (
      three (dec (with_macro env "__TI_COMPILER_VERSION__" (λ n. n / 1000000)))
        (dec (with_macro env "__TI_COMPILER_VERSION__" (λ n. n / 1000 % 1000)))
        (dec (with_macro env "__TI_COMPILER_VERSION__" (λ n. n % 1000))));
}

unfoldable pub fujitsu : Branch
fujitsu = record {
  test = λ env.
      defined env "__FUJITSU" || (defined env "__FCC_VERSION" || defined env "__fcc_version");
  defines = λ env. plain (bytes "Fujitsu") no_version;
}

unfoldable pub green_hills : Branch
green_hills = record {
  test = λ env. defined env "__ghs__";
  defines = λ env. plain (bytes "GHS") (
      if defined env "__GHS_VERSION_NUMBER"
      then three (dec (with_macro env "__GHS_VERSION_NUMBER" (λ n. n / 100)))
          (dec (with_macro env "__GHS_VERSION_NUMBER" (λ n. n / 10 % 10)))
          (dec (with_macro env "__GHS_VERSION_NUMBER" (λ n. n % 10)))
      else no_version);
}

unfoldable pub tiny_c : Branch
tiny_c = record {
  test = λ env. defined env "__TINYC__";
  defines = λ env. plain (bytes "TinyCC") no_version;
}

unfoldable pub bruce : Branch
bruce = record {
  test = λ env. defined env "__BCC__";
  defines = λ env. plain (bytes "Bruce") no_version;
}

unfoldable pub sco : Branch
sco = record {
  test = λ env. defined env "__SCO_VERSION__";
  defines = λ env. plain (bytes "SCO") no_version;
}
