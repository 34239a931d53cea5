-- ===== src/Tests/ConfigTests.antt =====
-- Runs of source/ati/config.c, and its theorem at an example.
use Prim.Native.Char.{code}
use Prim.Native.String.{String}
use atcc.Prelude.{◌≡◌, refl, some, List, [], ◌∷◌}
use atcc.Ati.Strings.{Bytes, string_match}
use atcc.Config.Parse.{Opt, Parsed, options_parse, options_get, options_get_list}
use atcc.Config.Terminates.{options_parse-ends}

abbrev codes : String → Bytes
codes String.[] = []
codes (String.◌∷◌ c s) = code c ∷ codes s

runs : Unit {0}
unfolding options_parse options_get options_get_list string_match
runs = tt

abbrev target : Bytes
target = codes "# build\nname = \"kilo\"\nflags = [@mac \"-O2\", \"-g\"]"

reads_options :
    options_parse [] target
    ≡ some (
        Parsed.parsed (
          record { key = codes "name"; entries = record { value = codes "kilo"; tag = [] } ∷ [] }
          ∷ record {
            key = codes "flags";
            entries =
                record { value = codes "-O2"; tag = codes "mac" }
                ∷ record { value = codes "-g"; tag = [] }
                ∷ [];
          }
          ∷ []))
unfolding runs
reads_options = refl

-- One comment is skipped before a token, a second one is an error.
rejects_comments : options_parse [] (codes "# a\n# b\nk = \"v\"") ≡ some Parsed.rejected
unfolding runs
rejects_comments = refl

options_parse-ends_example :
    (r : Parsed (List Opt)) × (options_parse [] (codes "k = [\"a\",") ≡ some r)
options_parse-ends_example = options_parse-ends [] (codes "k = [\"a\",")
