-- ===== src/Sessions/Sample.antt =====
-- A small state, settings and readings of the clock for the tests.
use balanz.Prelude.{String, true, [], ◌∷◌}
use balanz.Access.Sample.{tables, ana_session}
use balanz.Sessions.Cache.{Settings}
use balanz.Sessions.Activity.{State}
use balanz.Sessions.Service.{Run}

abbrev pub settings : Settings
settings = record {
  session_ttl_seconds = 43200;
  idle_ttl_seconds = 1800;
  persist_interval_seconds = 60;
  authorization_cache_ttl_seconds = 30;
}

-- Ana's session, whose row holds the digest "hash", and an empty cache
abbrev pub st : State
st = record { db = record tables { sessions = ana_session ∷ [] }; cache = [] }

-- the digest of the tests: a token is its own
abbrev pub hash_token : String → String
hash_token text = text

abbrev pub run : Run
run = record {
  reading = 300;
  cache_check = 300;
  cache_persist = 300;
  activity = 300;
  cache_authorize = 300;
  cache_authorized = 300;
  touching = 300;
  check = 300;
  persist = 300;
  authorize = 300;
  authorized = 300;
  setting = 300;
  get_up = true;
  delete_up = true;
  touch_up = true;
  set_up = true;
}
