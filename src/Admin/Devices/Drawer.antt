-- ===== src/Admin/Devices/Drawer.antt =====
-- The drawer with the details of one device, and requests for it that overlap.
use dmqtt.Base.{◌≡◌, refl, Bytes, [], ◌∷◌, true, false, some}
use dmqtt.Admin.Devices.{
  DeviceDetail, DevicesPage, notify, show_detail, detail_loaded, detail_not_loaded, shows,
  detail_ends, detail_fails, step, run,
}

-- A row is clicked and its request ends before another row is clicked: the open drawer shows that
-- device and nothing loads. Where the request fails, the drawer is titled with the device and still
-- shows the details from before.
pub run-shows :
    (page : DevicesPage) (id : Bytes) (detail : DeviceDetail)
    → ((run page (shows id ∷ detail_ends detail ∷ [])).selected_id ≡ id)
      × ((run page (shows id ∷ detail_ends detail ∷ [])).device_detail ≡ some detail)
      × ((run page (shows id ∷ detail_ends detail ∷ [])).detail_loading ≡ false)
      × ((run page (shows id ∷ detail_fails ∷ [])).selected_id ≡ id)
      × ((run page (shows id ∷ detail_fails ∷ [])).device_detail ≡ page.device_detail)
      × ((run page (shows id ∷ detail_fails ∷ [])).drawer_visible ≡ true)
unfolding run step show_detail detail_loaded detail_not_loaded notify
run-shows page id detail = (refl, refl, refl, refl, refl, refl)

-- Two rows are clicked, and the answer for the first one comes last: the drawer is titled with the
-- second device, shows the details of the first, and does not load.
pub overlapping_shows :
    (page : DevicesPage) (first second : Bytes) (of_first of_second : DeviceDetail)
    → let clicks = shows first ∷ shows second ∷ detail_ends of_second ∷ detail_ends of_first ∷ [] in
      ((run page clicks).selected_id ≡ second)
      × ((run page clicks).device_detail ≡ some of_first)
      × ((run page clicks).detail_loading ≡ false)
unfolding run step show_detail detail_loaded
overlapping_shows page first second of_first of_second = (refl, refl, refl)
