-- ===== src/Metrics/Tests.antt =====
-- A run of Write, and the theorem at a concrete input.
use lotsman.Prelude.{◌≡◌, refl, some, [], ◌∷◌, ◌++◌}
use lotsman.Bytes.{Text, codes}
use lotsman.Metrics.{Family, Sample, escape, write}
use lotsman.Metrics.Quoting.{unquote, unquote-escape}

abbrev mtu : Family
mtu = record { name = codes "mtu"; kind = codes "gauge"; help = codes "Bytes." }

abbrev sample : Text → Sample
sample v = record {
  name = codes "mtu";
  labels = record { name = codes "up"; value = v } ∷ [];
  value = codes "1";
}

-- The samples are sorted by their labels.
write_run :
    write (mtu ∷ []) (sample (codes "b") ∷ sample (codes "a") ∷ [])
    ≡ codes "# HELP mtu Bytes."
      ++ (10 ∷ codes "# TYPE mtu gauge")
      ++ (10 ∷ codes "mtu{up=\"a\"} 1")
      ++ (10 ∷ codes "mtu{up=\"b\"} 1")
      ++ 10 ∷ []
unfolding write
write_run = refl

-- A quote, a backslash and a line feed.
abbrev awkward : Text
awkward = b'"' ∷ b'\\' ∷ 10 ∷ b'x' ∷ []

unquote-escape_example :
    unquote (escape awkward ++ b'"' ∷ codes "} 1") ≡ some (awkward, codes "} 1")
unquote-escape_example = unquote-escape awkward (codes "} 1")
