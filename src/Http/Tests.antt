-- ===== src/Http/Tests.antt =====
-- The theorem on src/lws_http.c at a concrete code.
use nginx_lws.Base.{◌≡◌, some}
use nginx_lws.Http.Status.{lws_http_status}
use nginx_lws.Http.Lookup.{lws_find_http_status, first_with, lws_find_http_status-first_with}

lws_find_http_status-first_with_example :
    lws_find_http_status 404 ≡ some (first_with 404 lws_http_status)
lws_find_http_status-first_with_example = lws_find_http_status-first_with 404
