-- ===== src/Http/Faultless.antt =====
-- No request makes a handler of internal/proto/http/handler.go panic.
use white_toyota_tacoma.Common.{◌≡◌, ◌≢◌, true, length, arith}
use white_toyota_tacoma.Common.Bytes.{Bytes}
use white_toyota_tacoma.Common.Result.{err, panic}
use white_toyota_tacoma.Fingerprint.{Drawn, new}
use white_toyota_tacoma.Fingerprint.Formed.{length-es_build_hash}
use white_toyota_tacoma.Http.Message.{Request, Handled}
use white_toyota_tacoma.Http.Mux.{Route, redirect, handle, not_found}
use white_toyota_tacoma.Http.Serve.{handled, serve_routed}
use white_toyota_tacoma.Http.Elasticsearch.Documents as Documents
use white_toyota_tacoma.Http.Elasticsearch.Service as Elasticsearch
use white_toyota_tacoma.Http.Elasticsearch.Logs.{run-eq-ok}
use white_toyota_tacoma.Http.Couchdb as Couchdb
use white_toyota_tacoma.Http.Couchdb.Databases.{run-Answers}

routed-ne-panic :
    {H : Type 0} (run : H → Request → Handled) (route' : Route H) (r : Request)
    → ((h : H) → run h r ≢ err panic)
    → serve_routed run route' r ≢ handled (err panic)
unfolding serve_routed
routed-ne-panic run (redirect path) r h e = cc
routed-ne-panic run not_found r h e = cc
routed-ne-panic run (handle g) r h e = h g (cc e)

-- With a store, and with a fingerprint whose build hash is drawn from 20 bytes, no request makes a
-- handler of either service panic: the nil store is not reached, and the hash is long enough for
-- the eight characters that CouchDB shows of it.
pub http_ne_panic :
    (es : Documents.Env) (couch : Couchdb.Env) (host : Bytes) (d : Drawn) (r : Request)
    → es.store ≡ true
    → couch.store ≡ true
    → length d.build_hash ≡ 20
    → couch.fp ≡ new host d
    → (Elasticsearch.serve es r ≢ handled (err panic))
      × (Couchdb.serve couch r ≢ handled (err panic))
unfolding Elasticsearch.serve Couchdb.serve
http_ne_panic es couch host d r s t n f = (
  routed-ne-panic (Elasticsearch.run es) _ r (λ h e. let (w, q) = run-eq-ok es h r s in cc),
  routed-ne-panic (Couchdb.run couch) _ r (λ h e.
      let (w, q) = run-Answers couch h r t (rw f (omega (arith, length-es_build_hash host d))) in
      cc),
)
