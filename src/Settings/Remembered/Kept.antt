-- ===== src/Settings/Remembered/Kept.antt =====
-- What the drawer keeps of its picks: a reload finds them.
use webshark.Prelude.{
  Text, codes, ◌≡◌, refl, sym, ap, ◌∙◌, ◌⊎◌, inl, inr, Option, none, some, List, text_eq, get, put,
  get-put, get-put_self, get-remove,
}
use webshark.Columns.{Shape, relative, delta, utc, times}
use webshark.Settings.Remembered.{
  Theme, system, light, dark, shape_in, themed, Prefs, theme, keep_time, boot,
}

-- One of `TIMES`.
abbrev pub IsOffered : Shape → Type 0
IsOffered t = (t ≡ relative) ⊎ ((t ≡ delta) ⊎ (t ≡ utc))

pub record IsKept (p : Prefs) : Type 0 where
  pub time_kept : shape_in times (get p.stored (codes "time")) ≡ p.time
  pub theme_kept : (boot p.stored).data_theme ≡ p.data_theme

theme-kept : (t : Theme) (p : Prefs) → themed (get (theme t p).stored (codes "theme")) ≡ t
unfolding theme themed
theme-kept system p = ap themed (get-remove p.stored (codes "theme") (codes "theme"))
theme-kept light p = ap themed (get-put_self p.stored (codes "theme") (codes "light"))
theme-kept dark p = ap themed (get-put_self p.stored (codes "theme") (codes "dark"))

theme-data : (t : Theme) (p q : Prefs) → (theme t p).data_theme ≡ (theme t q).data_theme
unfolding theme
theme-data system p q = refl
theme-data light p q = refl
theme-data dark p q = refl

pub theme-time :
    (t : Theme) (p : Prefs)
    → (get (theme t p).stored (codes "time") ≡ get p.stored (codes "time"))
      × ((theme t p).time ≡ p.time)
unfolding theme
theme-time system p = (get-remove p.stored (codes "theme") (codes "time"), refl)
theme-time light p = (get-put p.stored (codes "theme") (codes "time") (codes "light"), refl)
theme-time dark p = (get-put p.stored (codes "theme") (codes "time") (codes "dark"), refl)

boot-data :
    (stored : List (Text × Text)) (p : Prefs)
    → (boot stored).data_theme ≡ (theme (themed (get stored (codes "theme"))) p).data_theme
unfolding boot
boot-data stored p =
    theme-data (themed (get stored (codes "theme")))
      (record {
        time = shape_in times (get stored (codes "time"));
        data_theme = none;
        stored = stored;
      })
      p

pub theme-IsKept :
    (t : Theme) (p : Prefs)
    → shape_in times (get p.stored (codes "time")) ≡ p.time
    → IsKept (theme t p)
unfolding boot
theme-IsKept t p kept =
    let (same, time) = theme-time t p in
    record {
      time_kept = ap (shape_in times) same ∙ kept ∙ sym time;
      theme_kept =
          boot-data (theme t p).stored p
          ∙ ap (λ (u : Theme). (theme u p).data_theme) (theme-kept t p);
    }

shape_in-offered : (t : Shape) → IsOffered t → shape_in times (some (codes t.key)) ≡ t
unfolding shape_in
shape_in-offered t (inl e) = rw e refl
shape_in-offered t (inr (inl e)) = rw e refl
shape_in-offered t (inr (inr e)) = rw e refl

pub keep_time-IsKept : (t : Shape) (p : Prefs) → IsOffered t → IsKept p → IsKept (keep_time t p)
unfolding keep_time boot
keep_time-IsKept t p offered k = record {
  time_kept =
      ap (shape_in times) (get-put_self p.stored (codes "time") (codes t.key))
      ∙ shape_in-offered t offered;
  theme_kept =
      boot-data (put p.stored (codes "time") (codes t.key)) p
      ∙ ap (λ (o : Option Text). (theme (themed o) p).data_theme)
          (get-put p.stored (codes "time") (codes "theme") (codes t.key))
      ∙ sym (boot-data p.stored p)
      ∙ k.theme_kept;
}

pub boot-time :
    (stored : List (Text × Text)) → (boot stored).time ≡ shape_in times (get stored (codes "time"))
unfolding boot
boot-time stored =
    (theme-time (themed (get stored (codes "theme"))) (record {
      time = shape_in times (get stored (codes "time"));
      data_theme = none;
      stored = stored;
    })).1

pub boot-IsKept : (stored : List (Text × Text)) → IsKept (boot stored)
unfolding boot
boot-IsKept stored =
    theme-IsKept (themed (get stored (codes "theme")))
      (record {
        time = shape_in times (get stored (codes "time"));
        data_theme = none;
        stored = stored;
      })
      refl
