-- ===== src/Examples/Searches.antt =====
-- A search on a small tree: internal/filesearch.
use host_ftp.Base.{pos, codes}
use host_ftp.Search.Options.{Request, Limits}
use host_ftp.Search.Walk.{Walk}

request : Request
request = record {
  query = codes " d ";
  max_depth = pos 3;
  max_visited = pos 10;
  max_results = pos 0;
  batch_size = pos 2;
  timeout = pos 0;
}

limits : Limits
limits = record {
  query = codes "d";
  max_depth = 3;
  max_visited = 10;
  max_results = 1000;
  batch_size = 2;
  timeout = 20000000000;
}
