-- ===== src/Fwav/Frame/Defaults.antt =====
-- `validateFrame` at a frame that it has filled in.
use fipwave.Common.{ℕ, ◌≡◌, refl, ap, ◌∙◌, Bool, true, false, if◌then◌else◌, Option, some, ok}
use fipwave.Fwav.{MessageType, hello, fips_packet, FwavFrame, ValidFrame}
use fipwave.Fwav.Frame.{is_fips, or_default, with_defaults, validate_frame}
use fipwave.Fwav.Frame.Legal.{
  IsLegal, ClassFits, ControlFits, FormatFits, NoPcm, IsPcm, validate_legal,
}

-- A frame of which all fields are given, as `validateFrame` takes it.
unfoldable pub as_frame : ValidFrame → FwavFrame
as_frame v = record {
  type = v.type;
  flags = some v.flags;
  traffic_class = v.traffic_class;
  epoch = v.epoch;
  sequence = v.sequence;
  sample_rate = some v.sample_rate;
  channels = some v.channels;
  encoding = some v.encoding;
  payload = v.payload;
}

with_defaults_again :
    (b : Bool) (o : Option ℕ)
    → (if b
        then some (or_default (if b then some (or_default o 3) else o) 3)
        else (if b then some (or_default o 3) else o))
      ≡ (if b then some (or_default o 3) else o)
with_defaults_again true o = refl
with_defaults_again false o = refl

same_again : (f : FwavFrame) → with_defaults (as_frame (with_defaults f)) ≡ with_defaults f
unfolding with_defaults as_frame
same_again f = λ i. record {
  type = f.type;
  flags = or_default f.flags 0;
  traffic_class = with_defaults_again (is_fips f.type) f.traffic_class i;
  epoch = f.epoch;
  sequence = f.sequence;
  sample_rate = or_default f.sample_rate 0;
  channels = or_default f.channels 0;
  encoding = or_default f.encoding 0;
  payload = f.payload;
}

class_again :
    (f : FwavFrame)
    → (t : MessageType) → f.type ≡ t
    → ClassFits t f
    → ClassFits t (as_frame (with_defaults f))
unfolding with_defaults as_frame is_fips
class_again f fips_packet e h = rw (e) h
class_again f hello e h = rw (e) h
class_again f _ e h = rw (e) h

control_again :
    (f : FwavFrame)
    → (t : MessageType) → ControlFits t f
    → ControlFits t (as_frame (with_defaults f))
unfolding with_defaults as_frame
control_again f MessageType.acoustic_ready h = h
control_again f MessageType.acoustic_disarm h = h
control_again f MessageType.fips_packet_admission h = h
control_again f hello h = h
control_again f _ h = h

IsPcm-again : (f : FwavFrame) → IsPcm f → IsPcm (as_frame (with_defaults f))
unfolding with_defaults as_frame
IsPcm-again f h = record {
  rate = h.rate;
  rate_fits = h.rate_fits;
  channels = h.channels;
  channels_fit = h.channels_fit;
  encoding = h.encoding;
  indexed = h.indexed;
  aligned = h.aligned;
}

NoPcm-again : (f : FwavFrame) → NoPcm f → NoPcm (as_frame (with_defaults f))
unfolding with_defaults as_frame
NoPcm-again f h = record { rate = h.rate; channels = h.channels; encoding = h.encoding }

format_again :
    (f : FwavFrame) → (t : MessageType) → FormatFits t f → FormatFits t (as_frame (with_defaults f))
format_again f MessageType.pcm_capture h = IsPcm-again f h
format_again f MessageType.pcm_playback h = IsPcm-again f h
format_again f hello h = NoPcm-again f h
format_again f _ h = NoPcm-again f h

all_again : (f : FwavFrame) → IsLegal f → IsLegal (as_frame (with_defaults f))
unfolding with_defaults as_frame
all_again f l = record {
  fits = record {
    flags = l.fits.flags;
    epoch = l.fits.epoch;
    sequence = l.fits.sequence;
    payload = l.fits.payload;
  };
  class = class_again f f.type refl l.class;
  control = control_again f f.type l.control;
  format = format_again f f.type l.format;
}

-- Filling in the defaults a second time changes nothing.
pub validate_again :
    (f : FwavFrame) → IsLegal f → validate_frame (as_frame (with_defaults f)) ≡ ok (with_defaults f)
validate_again f l =
    validate_legal (as_frame (with_defaults f)) (all_again f l) ∙ ap ok (same_again f)
