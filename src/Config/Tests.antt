-- ===== src/Config/Tests.antt =====
-- Configuration files as HTTP SERVER/HTTP Server/src/config_loader.cpp reads them.
use http_storm.Common.{Bytes, [], none, some}
use http_storm.Config.Loading.{JsonOps, parsed}

-- A library that reads every text as an empty object.
abbrev no_members : JsonOps Bytes
no_members = record {
  member = λ j key. none;
  get_string = λ j. some j;
  get_number = λ j. none;
  get_bool = λ j. none;
  parse = λ text. parsed text;
  parse_error = λ text. [];
  value_error = λ j. [];
}
