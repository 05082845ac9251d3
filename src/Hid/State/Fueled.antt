-- ===== src/Hid/State/Fueled.antt =====
-- What the operations of `ParserState` throw is never for want of the model's fuel.
use iptsd_android.Prelude.{ℕ, IsFueled, arith, List}
use iptsd_android.Hid.Report.{Usage}
use iptsd_android.Hid.State.{
  ParserState, TagMain, report_type, get_report, set_usage, set_usage_min, set_usage_max, add_range,
}

add_range-IsFueled : (lo hi page : ℕ) (us : List Usage) → IsFueled (add_range lo hi page us)
unfolding add_range
add_range-IsFueled lo hi page us e = ground arith

module _ (n : ℕ) (s : ParserState) where
  pub set_usage-IsFueled : IsFueled (set_usage n s)
  unfolding set_usage
  set_usage-IsFueled e = ground arith

  pub set_usage_min-IsFueled : IsFueled (set_usage_min n s)
  unfolding set_usage_min
  set_usage_min-IsFueled e = grind (arith, add_range-IsFueled)

  pub set_usage_max-IsFueled : IsFueled (set_usage_max n s)
  unfolding set_usage_max
  set_usage_max-IsFueled e = grind (arith, add_range-IsFueled)

pub get_report-IsFueled : (tag : TagMain) (s : ParserState) → IsFueled (get_report tag s)
unfolding get_report report_type
get_report-IsFueled tag s e = ground arith
