-- ===== src/Config/Ports.antt =====
-- The casts of `try_parse`: the range of the two ports and of the refresh interval, and the
-- settings that a cast changes.
use feature_probe_server.Prelude.{
  ℕ, ◌-◌, ◌%◌, ◌^◌, ◌≤◌, ◌<◌, ◌≡◌, ◌↔◌, ◌+◌, refl, none, some, ok, arith, Option, ap, ◌==◌,
  if◌then◌else◌,
}
use feature_probe_server.Prelude.Int.{ℤ, pos, negsuc, as_unsigned}
use feature_probe_server.Crates.{Config, Crates, Duration, from_secs}
use feature_probe_server.Config.{ServerConfig, port_or, refresh_interval_of, try_parse}

port_or-lt : (default : ℕ) (o : Option ℤ) → default < 65536 → port_or default o < 65536
unfolding port_or as_unsigned
port_or-lt default none h = h
port_or-lt default (some (pos n)) h = omega arith
port_or-lt default (some (negsuc n)) h = omega arith

refresh_interval_of-lt :
    (o : Option ℤ) {d : Duration} → refresh_interval_of o ≡ ok d → d.secs < 2 ^ 64
unfolding refresh_interval_of as_unsigned
refresh_interval_of-lt none e = absurd (ground arith)
refresh_interval_of-lt (some (pos n)) e = ground arith
refresh_interval_of-lt (some (negsuc n)) e = ground arith

-- A configuration in which `refresh_seconds` is set to a number.
abbrev pub with_refresh : Config → ℤ → Config
with_refresh config seconds = record config {
  get_int = λ k. if k == "refresh_seconds" then some seconds else config.get_int k;
}

interval_of_negative :
    (n : ℕ)
    → n < 2 ^ 63
    → refresh_interval_of (some (negsuc n)) ≡ ok (from_secs (2 ^ 64 - 1 - n % 2 ^ 64))
unfolding refresh_interval_of as_unsigned
interval_of_negative n h = refl

module _ (crates : Crates) where
  -- Only `refresh_interval` depends on `refresh_seconds`.
  try_parse-with_refresh :
      (config : Config) (cfg : ServerConfig crates.Url) (seconds : ℤ) {d : Duration}
      → try_parse crates config ≡ ok cfg
      → refresh_interval_of (some seconds) ≡ ok d
      → try_parse crates (with_refresh config seconds) ≡ ok (record cfg { refresh_interval = d })
  unfolding try_parse
  try_parse-with_refresh config cfg seconds e taken = ground arith

  -- What a configuration that parses has in its numeric fields.
  numeric_fields :
      (config : Config) {cfg : ServerConfig crates.Url}
      → try_parse crates config ≡ ok cfg
      → (cfg.server_port ≡ port_or 9000 (config.get_int "server_port"))
        × (cfg.realtime_port ≡ port_or 9100 (config.get_int "realtime_port"))
        × (refresh_interval_of (config.get_int "refresh_seconds") ≡ ok cfg.refresh_interval)
  unfolding try_parse
  numeric_fields config e = ground arith

  -- The fields of a configuration that parses are in the range of their types: both ports below
  -- 2 ^ 16, the refresh interval below 2 ^ 64 seconds.
  pub try_parse_bounds :
      (config : Config) (cfg : ServerConfig crates.Url)
      → try_parse crates config ≡ ok cfg
      → (cfg.server_port < 65536)
        × (cfg.realtime_port < 65536)
        × (cfg.refresh_interval.secs < 2 ^ 64)
  try_parse_bounds config cfg e =
      let (server, realtime, refresh) = numeric_fields config e in
      (
        rw server (port_or-lt 9000 (config.get_int "server_port") (omega arith)),
        rw realtime (port_or-lt 9100 (config.get_int "realtime_port") (omega arith)),
        refresh_interval_of-lt (config.get_int "refresh_seconds") refresh,
      )

  -- A configuration that parses has the server listen on the port that is set if and only if that
  -- number is not negative and is below 2 ^ 16. Any other is accepted and cut down without an error.
  pub try_parse-server_port_iff :
      (config : Config) (cfg : ServerConfig crates.Url) (port : ℤ)
      → try_parse crates config ≡ ok cfg
      → config.get_int "server_port" ≡ some port
      → (pos cfg.server_port ≡ port) ↔ ((n : ℕ) × (port ≡ pos n) × (n < 65536))
  unfolding port_or as_unsigned
  try_parse-server_port_iff config cfg (pos port) e set =
      let kept : cfg.server_port ≡ port % 65536 = rw ((numeric_fields config e).0, set) refl in
      (
        λ h. let same : cfg.server_port ≡ port = ground arith in (port, refl, omega arith),
        λ (n, same, small). let fits : port ≡ n = ground arith in ap pos (omega arith),
      )
  try_parse-server_port_iff config cfg (negsuc port) e set =
      (λ h. absurd (ground arith), λ (n, same, small). absurd (ground arith))

  -- A configuration that parses also parses with a negative number of seconds, which an `i64` can
  -- hold, in place of its `refresh_seconds`: only the interval differs, which is then
  -- 2 ^ 64 seconds less that number, at least 2 ^ 63.
  pub try_parse-refresh_negative :
      (config : Config) (cfg : ServerConfig crates.Url) (n : ℕ)
      → n < 2 ^ 63
      → try_parse crates config ≡ ok cfg
      → (seconds : ℕ) × (seconds + (n + 1) ≡ 2 ^ 64)
        × (2 ^ 63 ≤ seconds)
        × (try_parse crates (with_refresh config (negsuc n))
            ≡ ok (record cfg { refresh_interval = from_secs seconds }))
  try_parse-refresh_negative config cfg n h e = (
    2 ^ 64 - 1 - n % 2 ^ 64,
    omega arith,
    omega arith,
    try_parse-with_refresh config cfg (negsuc n) e (interval_of_negative n h),
  )
