-- ===== src/Http/Serve.antt =====
-- A service of internal/proto/http/handler.go: the mux, and then the handler that it chooses.
use white_toyota_tacoma.Common.Bytes.{Bytes}
use white_toyota_tacoma.Http.Message.{Request, Handled}
use white_toyota_tacoma.Http.Mux.{Route, redirect, handle, not_found}

-- What a service does with a request: the mux redirects it or has no handler for it, or a handler
-- is run.
pub data Served : Type 0 where
  redirected : Bytes → Served
  unknown : Served
  handled : Handled → Served

unfoldable pub serve_routed : {H : Type 0} → (H → Request → Handled) → Route H → Request → Served
serve_routed run_handler (redirect path) r = redirected path
serve_routed run_handler not_found r = unknown
serve_routed run_handler (handle h) r = handled (run_handler h r)
