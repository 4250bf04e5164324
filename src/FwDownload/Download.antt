-- ===== src/FwDownload/Download.antt =====
-- fw_download.c: a download that the AP serves comes to its end, with the whole image in flash.
use greybus_zephyr.Base.{
  ℕ, zero, suc, ◌+◌, ◌-◌, ◌*◌, ◌/◌, ◌%◌, ◌^◌, ◌≤◌, ◌<◌, ◌≡◌, ◌∙◌, refl, sym, ap, inl, inr, min,
  Bool, true, false, Option, none, some, [], ◌∷◌, ◌++◌, Bytes, arith, le16, le32, leb, leb→le, ℤ,
  le→leb, gt→leb, ◌==◌, if◌then◌else◌, take, drop, drop-add, take_all, lo8, hi8, take-append-drop,
  length, length-take, length-drop, append-nil, append_assoc, get_or, Bool-cases, negsuc, is_neg,
  ◌>>=◌,
}
use greybus_zephyr.Messages.{Message, header_size, gb_message_is_success, gb_op_success}
use greybus_zephyr.Messages.Laws.{HasMemory}
use greybus_zephyr.Messages.Ids.{new_operation_id}
use greybus_zephyr.Transport.{Effects, send, dealloc, device, request, response}
use greybus_zephyr.Messages.Requests.{request_alloc_lem, IsRequest}
use greybus_zephyr.FwDownload.{
  FwCall, flash_write, Platform, Fw, Reaction, data_size_max, fetch_request,
  gb_fw_download_fetch_firmware, gb_fw_download_find_firmware_response_handler, fw_request,
  gb_fw_release_firmware, gb_fw_mgmt_interface_fw_loaded, gb_fw_download_fetch_final, next_request,
  finish, gb_fw_download_fetch_firmware_response_handler, to_u8,
}

-- The bytes written to flash, in order.
abbrev pub written : Effects FwCall → Bytes
written [] = []
written (device (flash_write block _) ∷ es) = block ++ written es
written (device _ ∷ es) = written es
written (send _ _ ∷ es) = written es
written (dealloc _ ∷ es) = written es

-- The last message sent with its cport, or what was found before.
abbrev pub last_sent : Option (ℕ × Message) → Effects FwCall → Option (ℕ × Message)
last_sent found [] = found
last_sent found (send cport msg ∷ es) = last_sent (some (cport, msg)) es
last_sent found (device _ ∷ es) = last_sent found es
last_sent found (dealloc _ ∷ es) = last_sent found es

last_sent-append :
    (found : Option (ℕ × Message)) (es fs : Effects FwCall)
    → last_sent found (es ++ fs) ≡ last_sent (last_sent found es) fs
last_sent-append found [] fs = refl
last_sent-append found (send cport msg ∷ es) fs = last_sent-append (some (cport, msg)) es fs
last_sent-append found (device _ ∷ es) fs = last_sent-append found es fs
last_sent-append found (dealloc _ ∷ es) fs = last_sent-append found es fs

-- The request for a block among what was sent.
unfoldable pub fetch_of : Effects FwCall → Option Message
fetch_of [] = none
fetch_of (send _ msg ∷ es) = if msg.header.type == 0x02 then some msg else fetch_of es
fetch_of (_ ∷ es) = fetch_of es

-- The number of a little-endian word in a payload.
abbrev word_at : ℕ → Bytes → ℕ
word_at i b =
    get_or b i 0
    + get_or b (i + 1) 0 * 2 ^ 8
    + get_or b (i + 2) 0 * 2 ^ 16
    + get_or b (i + 3) 0 * 2 ^ 24

-- A number that fits 16 bits survives its conversion and its four bytes.
word_at_lem : (x y : ℕ) → x ≡ y → y < 2 ^ 16 → word_at 0 (le32 (x % 2 ^ 16)) ≡ y
word_at_lem x y e h = omega arith

-- The AP's answer to a request for a block of the image.
abbrev pub ap_answer : Bytes → Message → Message
ap_answer image req = record {
  header = record {
    size = header_size + length (take (word_at 5 req.payload) (drop (word_at 1 req.payload) image));
    operation_id = req.header.operation_id;
    type = 0x82;
    result = gb_op_success;
    pad = 0 ∷ 0 ∷ [];
  };
  payload = take (word_at 5 req.payload) (drop (word_at 1 req.payload) image);
}

-- With no next request the download rests, else it goes on with that.
abbrev after : Option Message → Effects FwCall → Fw → (Message → Fw → Reaction) → Reaction
after none es fw go_on = some (es, fw)
after (some next) es fw go_on = do (rest, fw') ← go_on next fw; some (es ++ rest, fw')

-- The AP answers the pending request, and so on while there is a next one: at most `fuel` rounds.
pub serve : (ℕ → Option Bytes) → ℕ → Platform → Bytes → ℕ → ℕ → Message → Fw → Reaction
serve alloc fw_mgmt platform image cport zero req fw = none
serve alloc fw_mgmt platform image cport (suc fuel) req fw = do
  (es, fw') ←
      gb_fw_download_fetch_firmware_response_handler alloc fw_mgmt platform cport
        (ap_answer image req) fw
  after (fetch_of es) es fw' (serve alloc fw_mgmt platform image cport fuel)

written-append : (es fs : Effects FwCall) → written (es ++ fs) ≡ written es ++ written fs
written-append [] fs = refl
written-append (device (flash_write block _) ∷ es) fs =
    ap (λ l. block ++ l) (written-append es fs) ∙ sym (append_assoc block (written es) (written fs))
written-append (device FwCall.flash_img_init ∷ es) fs = written-append es fs
written-append (device FwCall.read_bank_header ∷ es) fs = written-append es fs
written-append (device FwCall.request_upgrade ∷ es) fs = written-append es fs
written-append (send _ _ ∷ es) fs = written-append es fs
written-append (dealloc _ ∷ es) fs = written-append es fs

-- Nothing fails.
pub record Works (platform : Platform) : Type 0 where
  pub writes : (block : Bytes) (is_final : Bool) → is_neg (platform.on_write block is_final) ≡ false
  pub reads : is_neg platform.on_read_header ≡ false
  pub upgrades : is_neg platform.on_upgrade ≡ false

-- The request asks for the block that the download is at, or for more where the image ends.
record Pending (image : Bytes) (req : Message) (fw : Fw) : Type 0 where
  size_is : fw.fw_size ≡ length image
  inside : fw.offset < length image
  small : length image ≤ 2 ^ 16
  answered : (ap_answer image req).payload ≡ take data_size_max (drop fw.offset image)

-- A block is no longer than what is left.
take-min : (xs : Bytes) (n : ℕ) → take (min (length xs) n) xs ≡ take n xs
take-min xs n = elim (Bool-cases (leb (length xs) n)) [
  | inl all ↦
      let e : min (length xs) n ≡ length xs = omega (arith, leb→le _ _ all) in
      rw e (take_all (length xs) xs (omega arith) ∙ sym (take_all n xs (leb→le _ _ all)))
  | inr less ↦ let e : min (length xs) n ≡ n = ground (arith, less) in rw e refl
]

-- The last message sent reports that the firmware asked for under an id was loaded and is valid.
pub record Reports (fw_mgmt : ℕ) (platform : Platform) (req_id : ℤ) (es : Effects FwCall)
    : Type 0 where
  pub report : Message
  pub type_is : report.header.type ≡ 0x03
  pub payload_is : report.payload ≡ to_u8 req_id ∷ 2 ∷ (le16 platform.major ++ le16 platform.minor)
  pub sent_last : (found : Option (ℕ × Message)) → last_sent found es ≡ some (fw_mgmt, report)

Reports-append :
    (fw_mgmt : ℕ) (platform : Platform) (req_id : ℤ) (es fs : Effects FwCall)
    → Reports fw_mgmt platform req_id fs
    → Reports fw_mgmt platform req_id (es ++ fs)
Reports-append fw_mgmt platform req_id es fs r = record {
  report = r.report;
  type_is = r.type_is;
  payload_is = r.payload_is;
  sent_last = λ found. last_sent-append found es fs ∙ r.sent_last (last_sent found es);
}

module _ (alloc : ℕ → Option Bytes) (memory : HasMemory alloc) where
  -- A request of one's own is sent and freed.
  pub fw_request_lem :
      (payload : Bytes) (type cport : ℕ) (fw : Fw)
      → length payload < 256
      → (req : Message) × IsRequest req type payload fw.counter
        × (fw_request alloc payload type cport fw
            ≡ some (
              send cport req ∷ dealloc response ∷ [],
              record fw { counter = (new_operation_id fw.counter).1 },
            ))
  unfolding fw_request
  fw_request_lem payload type cport fw short =
      let (req, made, is) =
        request_alloc_lem alloc memory payload type fw.counter (omega (arith, short)) in
      (req, is, rw made refl)

  module _ (fw_mgmt : ℕ) (platform : Platform) (works : Works platform) (image : Bytes)
      (cport : ℕ) where
    -- The handler, with its quantities and its two calls computed.
    handler_lem :
        (resp : Message) (fw fw' fw'' : Fw) (cur o' : ℕ) (final : Bool) (block : Bytes)
        (es fs : Effects FwCall)
        → gb_message_is_success resp ≡ true
        → min ((fw.fw_size + 2 ^ 32 - fw.offset) % 2 ^ 32) data_size_max ≡ cur
        → (fw.offset + cur) % 2 ^ 32 ≡ o'
        → leb fw.fw_size o' ≡ final
        → leb cur (length resp.payload) ≡ true
        → take cur resp.payload ≡ block
        → next_request alloc fw_mgmt platform cport final (record fw { offset = o' })
          ≡ some (es, fw')
        → finish alloc fw_mgmt platform cport final fw' ≡ some (fs, fw'')
        → gb_fw_download_fetch_firmware_response_handler alloc fw_mgmt platform cport resp fw
          ≡ some (es ++ device (flash_write block final) ∷ fs, fw'')
    unfolding gb_fw_download_fetch_firmware_response_handler
    handler_lem resp fw fw' fw'' cur o' final block es fs good cur_is o_is final_is long block_is
          next_is done =
        rw
          (
            gb_fw_download_fetch_firmware_response_handler,
            good,
            cur_is,
            o_is,
            final_is,
            next_is,
            long,
            block_is,
            works.writes block final,
            done,
          )
          refl

    -- What the end of a download does.
    finish_lem :
        (fw : Fw)
        → (req : Message) × IsRequest req 0x03
            (to_u8 fw.req_id ∷ 2 ∷ (le16 platform.major ++ le16 platform.minor))
            fw.counter
          × (finish alloc fw_mgmt platform cport true fw
              ≡ some (
                dealloc request
                    ∷ device FwCall.read_bank_header
                    ∷ device FwCall.request_upgrade
                    ∷ send fw_mgmt req
                    ∷ dealloc response
                    ∷ [],
                record fw { counter = (new_operation_id fw.counter).1; req_id = negsuc 0 },
              ))
    unfolding finish gb_fw_download_fetch_final gb_fw_mgmt_interface_fw_loaded
    finish_lem fw =
        let (req, is, sent) =
          fw_request_lem (to_u8 fw.req_id ∷ 2 ∷ (le16 platform.major ++ le16 platform.minor)) 0x03
            fw_mgmt fw (omega arith) in
        (
          req,
          is,
          rw
              (
                finish, gb_fw_download_fetch_final, works.reads, works.upgrades,
                gb_fw_mgmt_interface_fw_loaded, sent,
              )
              refl,
        )

    answered_lem :
        (req : Message) (offset : ℕ)
        → word_at 1 req.payload ≡ offset
        → word_at 5 req.payload ≡ min (length (drop offset image)) 64
        → (ap_answer image req).payload ≡ take 64 (drop offset image)
    answered_lem req offset offset_is count_is =
        rw (offset_is, count_is) (take-min (drop offset image) 64)

    -- The last block ends the download.
    last_block :
        (req : Message) (fw : Fw)
        → Pending image req fw
        → length image - fw.offset ≤ 64
        → (es : Effects FwCall) × (fw' : Fw) × (gb_fw_download_fetch_firmware_response_handler alloc
              fw_mgmt platform cport
              (ap_answer image req)
              fw
            ≡ some (es, fw'))
          × (fetch_of es ≡ none)
          × (written es ≡ drop fw.offset image)
          × (fw'.req_id ≡ negsuc 0)
          × (fw'.offset ≡ length image)
          × Reports fw_mgmt platform fw.req_id es
    unfolding fetch_of gb_message_is_success next_request gb_fw_release_firmware
    last_block req fw p last =
        let inside : length (drop fw.offset image) ≡ length image - fw.offset =
          length-drop fw.offset image in
        let whole : (ap_answer image req).payload ≡ drop fw.offset image =
          p.answered ∙ take_all 64 (drop fw.offset image) (omega (arith, inside, last)) in
        let (rel, rel_is, released) =
          fw_request_lem (fw.fw_id ∷ []) 0x03 cport (record fw { offset = length image })
            (omega arith) in
        let fw' = record fw { offset = length image; counter = (new_operation_id fw.counter).1 } in
        let (rep, rep_is, finished) = finish_lem fw' in
        let run =
          handler_lem (ap_answer image req) fw fw' _ (length image - fw.offset) (length image) true
            (drop fw.offset image) (send cport rel ∷ dealloc response ∷ []) _ refl
            (omega (arith, p.size_is, p.inside, p.small, last)) (omega (arith, p.inside, p.small))
            (le→leb _ _ (omega (arith, p.size_is)))
            (le→leb _ _ (omega (arith, ap length whole, inside)))
            (rw whole (take_all _ (drop fw.offset image) (omega (arith, inside)))) released
            finished in
        (
          _,
          _,
          run,
          rw (rel_is.type_is, rep_is.type_is) refl,
          append-nil (drop fw.offset image),
          refl,
          refl,
          record {
            report = rep;
            type_is = rep_is.type_is;
            payload_is = rep_is.payload_is;
            sent_last = λ found. refl;
          },
        )

    -- Any other block asks for the next one.
    other_block :
        (req : Message) (fw : Fw)
        → Pending image req fw
        → 64 < length image - fw.offset
        → (es : Effects FwCall) × (next : Message) × (fw' : Fw)
          × (gb_fw_download_fetch_firmware_response_handler alloc fw_mgmt platform cport
                (ap_answer image req)
                fw
              ≡ some (es, fw'))
          × (fetch_of es ≡ some next)
          × (written es ≡ take 64 (drop fw.offset image))
          × Pending image next fw'
          × (fw'.offset ≡ fw.offset + 64)
          × (fw'.req_id ≡ fw.req_id)
    unfolding fetch_of gb_message_is_success next_request finish gb_fw_download_fetch_firmware
    other_block req fw p more =
        let room : 64 ≤ length (drop fw.offset image) =
          omega (arith, length-drop fw.offset image, more) in
        let fw' = record fw {
          offset = fw.offset + 64;
          counter = (new_operation_id fw.counter).1;
        } in
        let size = min ((fw.fw_size + 2 ^ 32 - (fw.offset + 64)) % 2 ^ 32) data_size_max in
        let next =
          fetch_request (new_operation_id fw.counter).0 fw.fw_id ((fw.offset + 64) % 2 ^ 16)
            (size % 2 ^ 16) in
        let run =
          handler_lem (ap_answer image req) fw fw' fw' 64 (fw.offset + 64) false
            (take 64 (drop fw.offset image)) (send cport next ∷ []) (dealloc request ∷ []) refl
            (omega (arith, p.size_is, p.inside, p.small, more)) (omega (arith, p.inside, p.small))
            (gt→leb _ _ (omega (arith, p.size_is, more)))
            (le→leb _ _
              (omega (arith, ap length p.answered, room, length-take 64 (drop fw.offset image))))
            (rw p.answered (take_all 64 _ (omega (arith, length-take 64 (drop fw.offset image)))))
            refl refl in
        (
          _,
          next,
          fw',
          run,
          refl,
          append-nil (take 64 (drop fw.offset image)),
          record {
            size_is = p.size_is;
            inside = omega (arith, more);
            small = p.small;
            answered =
                answered_lem next (fw.offset + 64)
                  (word_at_lem (fw.offset + 64) _ refl (omega (arith, more, p.small)))
                  (word_at_lem size (min (length (drop (fw.offset + 64) image)) 64)
                    (omega (
                      arith,
                      p.size_is,
                      p.inside,
                      p.small,
                      more,
                      length-drop (fw.offset + 64) image,
                    ))
                    (omega arith));
          },
          refl,
          refl,
        )

    serve-last :
        (fuel : ℕ) (req : Message) (fw fw' : Fw) (es : Effects FwCall)
        → gb_fw_download_fetch_firmware_response_handler alloc fw_mgmt platform cport
            (ap_answer image req)
            fw
          ≡ some (es, fw')
        → fetch_of es ≡ none
        → serve alloc fw_mgmt platform image cport (suc fuel) req fw ≡ some (es, fw')
    unfolding serve
    serve-last fuel req fw fw' es run ends =
        rw run (ap (λ o. after o es fw' (serve alloc fw_mgmt platform image cport fuel)) ends)

    serve-next :
        (fuel : ℕ) (req next : Message) (fw fw' fw'' : Fw) (es fs : Effects FwCall)
        → gb_fw_download_fetch_firmware_response_handler alloc fw_mgmt platform cport
            (ap_answer image req)
            fw
          ≡ some (es, fw')
        → fetch_of es ≡ some next
        → serve alloc fw_mgmt platform image cport fuel next fw' ≡ some (fs, fw'')
        → serve alloc fw_mgmt platform image cport (suc fuel) req fw ≡ some (es ++ fs, fw'')
    unfolding serve
    serve-next fuel req next fw fw' fw'' es fs run asks rest = rw run (
        ap (λ o. after o es fw' (serve alloc fw_mgmt platform image cport fuel)) asks
        ∙ rw rest refl)

    joined :
        (es fs : Effects FwCall) (o o' : ℕ)
        → written es ≡ take 64 (drop o image)
        → written fs ≡ drop o' image
        → o' ≡ o + 64
        → written es ++ written fs ≡ drop o image
    joined es fs o o' wrote wrote' at =
        rw (wrote, wrote', at, drop-add) (take-append-drop 64 (drop o image))

    -- With a round for every byte that is left, the rest of the image is written.
    serve_lem :
        (fuel : ℕ) (req : Message) (fw : Fw)
        → Pending image req fw
        → length image - fw.offset ≤ fuel
        → (es : Effects FwCall) × (fw' : Fw) × (serve alloc fw_mgmt platform image cport fuel req fw
            ≡ some (es, fw'))
          × (written es ≡ drop fw.offset image)
          × (fw'.req_id ≡ negsuc 0)
          × (fw'.offset ≡ length image)
          × Reports fw_mgmt platform fw.req_id es
    serve_lem zero req fw p enough = absurd (omega (arith, p.inside))
    serve_lem (suc fuel) req fw p enough = elim (Bool-cases (leb (length image - fw.offset) 64)) [
      | inl last ↦
          let (es, fw', run, ends, wrote, id_is, offset_is, reports) =
            last_block req fw p (leb→le _ _ last) in
          (es, fw', serve-last fuel req fw fw' es run ends, wrote, id_is, offset_is, reports)
      | inr more ↦
          let (es, next, fw', run, asks, wrote, pending, at, kept) =
            other_block req fw p (ground (arith, more)) in
          let (fs, fw'', rest, wrote', id_is, offset_is, reports) =
            serve_lem fuel next fw' pending (omega (arith, at)) in
          (
            es ++ fs,
            fw'',
            serve-next fuel req next fw fw' fw'' es fs run asks rest,
            written-append es fs ∙ joined es fs fw.offset fw'.offset wrote wrote' at,
            id_is,
            offset_is,
            rw kept at (Reports-append fw_mgmt platform fw'.req_id es fs reports),
          )
    ]

    -- With memory and a platform on which nothing fails: after a find_firmware response that
    -- announces an image of 1 to 65536 bytes, an AP that answers each request for a block
    -- brings the download to its end within as many rounds as the image has bytes; the blocks
    -- written to flash are the image, in order, no download is pending any more, and the last
    -- message sent reports that the firmware is loaded and valid.
    pub serve-image :
        (stale id : ℕ) (resp : Message) (fw : Fw)
        → 0 < length image
        → length image ≤ 2 ^ 16
        → gb_message_is_success resp ≡ true
        → resp.payload ≡ id ∷ le32 (length image)
        → (es : Effects FwCall) × (req : Message) × (fw' : Fw) × (fs : Effects FwCall) × (fw'' : Fw)
          × (gb_fw_download_find_firmware_response_handler stale cport resp fw ≡ some (es, fw'))
          × (fetch_of es ≡ some req)
          × (serve alloc fw_mgmt platform image cport (length image) req fw' ≡ some (fs, fw''))
          × (written fs ≡ image)
          × (fw''.req_id ≡ negsuc 0)
          × Reports fw_mgmt platform fw.req_id fs
    unfolding gb_fw_download_find_firmware_response_handler gb_fw_download_fetch_firmware fetch_of
    serve-image stale id resp fw some_image small good payload_is =
        let req = fetch_request (new_operation_id fw.counter).0 stale 0 64 in
        let fw' = record fw {
          fw_id = id;
          fw_size = length image;
          offset = 0;
          counter = (new_operation_id fw.counter).1;
        } in
        let p : Pending image req fw' = record {
          size_is = refl;
          inside = some_image;
          small = small;
          answered = refl;
        } in
        let (fs, fw'', run, wrote, id_is, _, reports) =
          serve_lem (length image) req fw' p (omega arith) in
        let size_is : lo8 (length image)
              + hi8 (length image) * 2 ^ 8
              + length image / 2 ^ 16 % 256 * 2 ^ 16
              + length image / 2 ^ 24 % 256 * 2 ^ 24
            ≡ length image =
          omega arith in
        (
          device FwCall.flash_img_init ∷ dealloc request ∷ send cport req ∷ [],
          req,
          fw',
          fs,
          fw'',
          rw (gb_fw_download_find_firmware_response_handler, good, payload_is) (rw size_is refl),
          refl,
          run,
          wrote,
          id_is,
          reports,
        )
