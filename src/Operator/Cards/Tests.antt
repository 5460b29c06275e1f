-- ===== src/Operator/Cards/Tests.antt =====
-- Runs of the cards, with one webshark in the cluster.
use webshark.Prelude.{codes, ◌≡◌, refl, none, some, [], ◌∷◌}
use webshark.Operator.Cards.{Webshark, webshark_url, what, ago}

abbrev main : Webshark
main = record {
  namespace = codes "lab";
  name = codes "main";
  service_url = some (codes "http://main.lab");
  path = codes "/w/lab/main/";
}

url_run : webshark_url (main ∷ []) (some (codes "http://other")) ≡ codes "http://other/"
unfolding webshark_url
url_run = refl

path_run : webshark_url (main ∷ []) (some (codes "http://main.lab")) ≡ codes "/w/lab/main/"
unfolding webshark_url
path_run = refl

what_run :
    what
      (record { labels = none; pod_names = codes "a" ∷ codes "b" ∷ []; filter = []; duration = [] })
    ≡ codes "2 pods · all traffic · 5m"
unfolding what
what_run = refl

ago_run : ago 7200000 (some 0) ≡ codes "2h"
unfolding ago
ago_run = refl
