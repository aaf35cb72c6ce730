-- ===== src/Attachments/Tests.antt =====
-- Two files, one of which is refused.
use azm_crm.Prelude.{none, [], ◌∷◌, refl, ◌≡◌}
use azm_crm.Attachments.{Upload, of_message, attach, path_name, path_suffix}
use azm_crm.Attachments.Safe.{IsSorted, attach-IsSorted}

abbrev shot : Upload
shot = record { name = "screens/../shot.one.png"; content_type = "image/png"; size = 12 }

abbrev page : Upload
page = record { name = "page.html"; content_type = "text/html"; size = 12 }

shot_name : path_name shot.name ≡ "shot.one.png"
unfolding path_name
shot_name = refl

shot_suffix : path_suffix shot.name ≡ ".png"
unfolding path_suffix
shot_suffix = refl

no_suffix : path_suffix ".profile" ≡ ""
unfolding path_suffix
no_suffix = refl

attach-IsSorted_example :
    IsSorted
      (λ s. s)
      100
      (of_message 4)
      none
      3
      4
      (shot ∷ page ∷ [])
      (attach (λ s. s) 100 (of_message 4) none 3 4 (shot ∷ page ∷ []))
attach-IsSorted_example = attach-IsSorted (λ s. s) 100 (of_message 4) none 3 4 (shot ∷ page ∷ [])
